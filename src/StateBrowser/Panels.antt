-- ===== src/StateBrowser/Panels.antt =====
-- The opened row of StateBrowser.jsx: what its panel shows, and when.
use tabulum.Prelude.{
  suc, String, List, [], ◌∷◌, none, some, Bool, true, false, ◌≡◌, arith, ◌≢◌, eq_iff,
}
use tabulum.StateBrowser.State.{
  Browser, Request, Action, search, refresh, click, answer, mount, unmount, tick, reply, Answer,
  is_key, entry_of, find, remove, act, run, initial,
}
use tabulum.StateBrowser.View.{waiting, open_panel, panel}

-- The spinner is on only while a fetch is in flight.
abbrev pub IsFetching : Bool → List Request → Type 0
IsFetching false qs = Unit
IsFetching true [] = ⊥
IsFetching true (q ∷ qs) = Unit

act-IsFetching :
    (a : Action) (b : Browser)
    → IsFetching b.loading_value b.requests
    → IsFetching (act a b).loading_value (act a b).requests
unfolding act
act-IsFetching (search p) b v = v
act-IsFetching (refresh on) b v = v
act-IsFetching (click k) b v = ground arith
act-IsFetching (answer id a) b v = ground arith
act-IsFetching mount b v = v
act-IsFetching unmount b v = v
act-IsFetching (tick id) b v = v
act-IsFetching (reply id r) b v = v

run-IsFetching :
    (more : List Action) (b : Browser)
    → IsFetching b.loading_value b.requests
    → IsFetching (run more b).loading_value (run more b).requests
unfolding run
run-IsFetching [] b v = v
run-IsFetching (a ∷ more) b v = run-IsFetching more (act a b) (act-IsFetching a b v)

waiting_lem :
    (k : String) (b : Browser)
    → panel k b ≡ some waiting
    → IsFetching b.loading_value b.requests
    → b.requests ≢ []
unfolding panel
waiting_lem k b e v = ground arith

-- After any actions since the page was opened, a panel that shows that it is loading has a fetch in
-- flight that will end it.
pub waiting-IsFetching :
    (more : List Action) (k : String)
    → panel k (run more initial) ≡ some waiting
    → (run more initial).requests ≢ []
waiting-IsFetching more k e =
    waiting_lem k (run more initial) e (run-IsFetching more initial (unfold initial in tt))

-- With no fetch in flight, a click on a closed row opens it, and it alone, as loading; the answer
-- then fills it with what was fetched.
pub click-answer :
    (k j : String) (a : Answer) (b : Browser)
    → b.requests ≡ []
    → is_key b.expanded_key k ≡ false
    → (panel k (act (click k) b) ≡ some waiting)
      × (panel k (run (click k ∷ answer b.next_id a ∷ []) b) ≡ some (open_panel (entry_of a)))
      × (j ≢ k → panel j (run (click k ∷ answer b.next_id a ∷ []) b) ≡ none)
unfolding run act panel find
click-answer k j a b q e =
    (ground (arith, eq_iff k k), ground (arith, eq_iff k k), λ n. ground (arith, eq_iff k j))

-- Two rows are clicked in turn, and the answer for the first comes last: the second row's panel shows
-- the value of the first.
pub crossed_answers :
    (k j : String) (a c : Answer) (b : Browser)
    → j ≢ k
    → b.requests ≡ []
    → is_key b.expanded_key k ≡ false
    → panel j (run (click k ∷ click j ∷ answer (suc b.next_id) c ∷ answer b.next_id a ∷ []) b)
      ≡ some (open_panel (entry_of a))
unfolding run act panel find remove
crossed_answers k j a c b n q e = ground (arith, eq_iff k j, eq_iff j j)

-- A second click on an opened row closes it.
pub click_twice :
    (k j : String) (b : Browser)
    → is_key b.expanded_key k ≡ false
    → panel j (run (click k ∷ click k ∷ []) b) ≡ none
unfolding run act panel
click_twice k j b e = ground (arith, eq_iff k k)
