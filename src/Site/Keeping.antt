-- ===== src/Site/Keeping.antt =====
-- What every instance of a tool keeps, the one on the page and those that have been left, through
-- all that the page does.
use tabulum.Prelude.{
  ℕ, zero, suc, String, List, [], ◌∷◌, Option, none, some, Bool, ◌≡◌, ◌≢◌, arith, if_cases,
}
use tabulum.App
use tabulum.App.{Component, page}
use tabulum.Site.State.{
  Shown, Inside, by_react, by_browser, origin, component_of, act_in, mounted, unmounted, Site,
  tool_of, same_component, place, rendered, opened, Event, navigate, inside, late, reach_shown,
  reach_gone, step, run,
}

-- A property of the mounted instances and one of the unmounted ones, which mounting, unmounting and
-- the actions keep.
pub record IsStable (Runs Rests : Shown → Type 0) : Type 0 where
  pub mounting : (b : Bool) (c : Component) → Runs (mounted b c)
  pub unmounting : (shown : Shown) → Runs shown → Rests (unmounted shown)
  pub acting :
      (x : Inside) (shown : Shown) → origin x ≢ by_react → Runs shown → Runs (act_in x shown)
  pub resting :
      (x : Inside) (old : Shown) → origin x ≡ by_browser → Rests old → Rests (act_in x old)

abbrev pub OnPage : (Shown → Type 0) → Option Shown → Type 0
OnPage P none = Unit
OnPage P (some shown) = P shown

abbrev pub All : (Shown → Type 0) → List Shown → Type 0
All P [] = Unit
All P (old ∷ gone) = P old × All P gone

module _ (Runs Rests : Shown → Type 0) (law : IsStable Runs Rests) where
  abbrev pub IsKept : Option Shown → List Shown → Type 0
  IsKept shown gone = OnPage Runs shown × All Rests gone

  place-IsKept :
      (b : Bool) (c : Option Component) (shown : Option Shown) (gone : List Shown)
      → IsKept shown gone
      → IsKept (place b c shown gone).0 (place b c shown gone).1
  unfolding place
  place-IsKept b none none gone v = v
  place-IsKept b none (some old) gone v = (tt, (law.unmounting old v.0, v.1))
  place-IsKept b (some c) none gone v = (law.mounting b c, v.1)
  place-IsKept b (some c) (some old) gone v =
      if_cases (λ (p : Option Shown × List Shown). IsKept p.0 p.1)
        (same_component c (component_of old)) (λ _. v)
        (λ _. (law.mounting b c, (law.unmounting old v.0, v.1)))

  reach_shown-OnPage :
      (x : Inside) (shown : Option Shown) → OnPage Runs shown → OnPage Runs (reach_shown x shown)
  unfolding reach_shown
  reach_shown-OnPage x none v = tt
  reach_shown-OnPage x (some shown) v = ground (arith, law.acting x shown)

  reach_gone-All :
      (i : ℕ) (x : Inside) (gone : List Shown) → All Rests gone → All Rests (reach_gone i x gone)
  unfolding reach_gone
  reach_gone-All i x [] v = tt
  reach_gone-All zero x (old ∷ gone) v = ground (arith, law.resting x old)
  reach_gone-All (suc i) x (old ∷ gone) v = (v.0, reach_gone-All i x gone v.1)

  step-IsKept :
      (e : Event) (s : Site) → IsKept s.shown s.gone → IsKept (step e s).shown (step e s).gone
  unfolding step rendered
  step-IsKept (navigate b a) s v =
      place-IsKept b (tool_of (page (App.act a s.app))) s.shown s.gone v
  step-IsKept (inside x) s v = (reach_shown-OnPage x s.shown v.0, v.1)
  step-IsKept (late i x) s v = (v.0, reach_gone-All i x s.gone v.1)

  run-IsKept :
      (es : List Event) (s : Site) → IsKept s.shown s.gone → IsKept (run es s).shown (run es s).gone
  unfolding run
  run-IsKept [] s v = v
  run-IsKept (e ∷ es) s v = run-IsKept es (step e s) (step-IsKept e s v)

  opened-IsKept : (b : Bool) (path : String) → IsKept (opened b path).shown (opened b path).gone
  unfolding opened rendered
  opened-IsKept b path = place-IsKept b (tool_of (page (App.initial path))) none [] (tt, tt)

  -- The same at the end of any events since the page was opened.
  pub run-opened-IsKept :
      (b : Bool) (path : String) (es : List Event)
      → IsKept (run es (opened b path)).shown (run es (opened b path)).gone
  run-opened-IsKept b path es = run-IsKept es (opened b path) (opened-IsKept b path)
