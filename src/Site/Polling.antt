-- ===== src/Site/Polling.antt =====
-- How often the server is polled for the tools, as a whole.
use tabulum.Prelude.{
  ℕ, String, List, [], ◌∷◌, Option, none, some, Bool, false, ◌≡◌, refl, arith, ◌+◌, if◌then◌else◌,
}
use tabulum.Site.State.{Shown, opened, Event, run}
use tabulum.Site.Tools.{tools-IsStable, Runs, Rests, polls, refreshes, Runs-polls, Rests-polls}
use tabulum.Site.Keeping.{OnPage, All, run-opened-IsKept}

-- All polling intervals that are live.
abbrev pub polls_shown : Option Shown → ℕ
polls_shown none = 0
polls_shown (some shown) = polls shown

abbrev pub polls_gone : List Shown → ℕ
polls_gone [] = 0
polls_gone (old ∷ gone) = polls old + polls_gone gone

abbrev pub refreshes_shown : Option Shown → Bool
refreshes_shown none = false
refreshes_shown (some shown) = refreshes shown

All-polls : (gone : List Shown) → All Rests gone → polls_gone gone ≡ 0
All-polls [] v = refl
All-polls (old ∷ gone) v = omega (arith, Rests-polls old v.0, All-polls gone v.1)

OnPage-polls :
    (shown : Option Shown)
    → OnPage Runs shown
    → polls_shown shown ≡ (if refreshes_shown shown then 1 else 0)
OnPage-polls none v = refl
OnPage-polls (some shown) v = Runs-polls shown v

-- From any address, after any moves between the pages, and whatever the user and the browser do in
-- the tools meanwhile: over all instances of the tools, also those that have been left and still hear
-- from the browser, one interval of usePolling.js is live if the tool on the page is one that polls
-- and its auto-refresh is ticked, and otherwise none is.
pub run-opened-polls :
    (b : Bool) (path : String) (es : List Event)
    → polls_shown (run es (opened b path)).shown + polls_gone (run es (opened b path)).gone
      ≡ (if refreshes_shown (run es (opened b path)).shown then 1 else 0)
run-opened-polls b path es =
    let (here, rest) = run-opened-IsKept Runs Rests tools-IsStable b path es in
    omega (
      arith,
      OnPage-polls (run es (opened b path)).shown here,
      All-polls (run es (opened b path)).gone rest,
    )
