-- ===== src/App/Paths.antt =====
-- The active tool and the address agree.
use tabulum.Prelude.{
  String, List, [], ◌∷◌, some, true, ◌≡◌, refl, sym, arith, inl, inr, str_eq, eq_iff, Bool-cases,
  subst,
}
use tabulum.Prelude.Objects.{elem, get_own}
use tabulum.ToolGrid.{selections}
use tabulum.App.Routes.{get_tool_from_path}
use tabulum.App.State.{
  App, Action, select, all_tools, go_back, go_forward, path_of, navigate_to, back, forward, act,
  run,
}

-- Every card's tool is the one that its path names.
get_tool_from_path-selections :
    (id : String) → elem id selections ≡ true → get_tool_from_path (path_of (some id)) ≡ some id
unfolding elem
get_tool_from_path-selections id h = elim (Bool-cases (str_eq "live-stream" id)) [
  | inl e ↦ at_id "live-stream" e (unfold get_tool_from_path get_own in refl)
  | inr n ↦ elim (Bool-cases (str_eq "state-browser" id)) [
    | inl e ↦ at_id "state-browser" e (unfold get_tool_from_path get_own in refl)
    | inr m ↦ elim (Bool-cases (str_eq "network-graph" id)) [
      | inl e ↦ at_id "network-graph" e (unfold get_tool_from_path get_own in refl)
      | inr k ↦ ground arith
    ]
  ]
]
  where
    at_id :
        (t : String)
        → str_eq t id ≡ true
        → get_tool_from_path (path_of (some t)) ≡ some t
        → get_tool_from_path (path_of (some id)) ≡ some id
    at_id t e r = subst (λ i. get_tool_from_path (path_of (some i)) ≡ some i) ((eq_iff t id).0 e) r

-- The page's own actions: only cards are selected.
abbrev pub FromGrid : List Action → Type 0
FromGrid [] = Unit
FromGrid (select id ∷ more) = (elem id selections ≡ true) × FromGrid more
FromGrid (all_tools ∷ more) = FromGrid more
FromGrid (go_back ∷ more) = FromGrid more
FromGrid (go_forward ∷ more) = FromGrid more

abbrev pub Agrees : App → Type 0
Agrees a = a.active_tool ≡ get_tool_from_path a.pathname

pub act-Agrees : (x : Action) (a : App) → FromGrid (x ∷ []) → Agrees a → Agrees (act x a)
unfolding act
act-Agrees (select id) a f v = sym (get_tool_from_path-selections id f.0)
act-Agrees all_tools a f v = unfold get_tool_from_path in refl
act-Agrees go_back a f v = ground arith
act-Agrees go_forward a f v = ground arith

-- From any address, and after any of the page's actions and moves in the history, the active tool is
-- the one that the address names: a reload shows the same page.
pub run-Agrees : (more : List Action) (a : App) → FromGrid more → Agrees a → Agrees (run more a)
unfolding run
run-Agrees [] a f v = v
run-Agrees (select id ∷ more) a f v =
    run-Agrees more (act (select id) a) f.1 (act-Agrees (select id) a (f.0, tt) v)
run-Agrees (all_tools ∷ more) a f v =
    run-Agrees more (act all_tools a) f (act-Agrees all_tools a tt v)
run-Agrees (go_back ∷ more) a f v = run-Agrees more (act go_back a) f (act-Agrees go_back a tt v)
run-Agrees (go_forward ∷ more) a f v =
    run-Agrees more (act go_forward a) f (act-Agrees go_forward a tt v)

-- Opening a card and going back, or returning to the cards and going back, restores the tool, the
-- address and the entries behind it; and going forward again reopens the card.
pub select_back :
    (id : String) (a : App)
    → elem id selections ≡ true
    → Agrees a
    → ((run (select id ∷ go_back ∷ []) a).active_tool ≡ a.active_tool)
      × ((run (select id ∷ go_back ∷ []) a).pathname ≡ a.pathname)
      × ((run (select id ∷ go_back ∷ []) a).behind ≡ a.behind)
      × ((run (select id ∷ go_back ∷ go_forward ∷ []) a).active_tool ≡ some id)
unfolding run act navigate_to back forward
select_back id a h v = (sym v, refl, refl, get_tool_from_path-selections id h)
