-- ===== src/NetworkGraph/Drag.antt =====
-- The drag handlers of the 2D view. d3 makes one gesture for the mouse and one for each touch, also for
-- two touches of one node, and tells a handler how many other gestures there are.
use tabulum.Prelude.{
  zero, ℕ, suc, List, [], ◌∷◌, Option, none, some, Bool, true, false, ◌==◌, if◌then◌else◌,
}

-- A node as the simulation moves it; `fx` and `fy` hold it in place.
pub record Body (R : Type 0) : Type 0 where
  pub x : R
  pub y : R
  pub fx : Option R
  pub fy : Option R

-- A gesture and the node that it drags.
pub record Grip : Type 0 where
  pub gesture : ℕ
  pub node : ℕ

pub record Simulation (R : Type 0) : Type 0 where
  pub bodies : List (Body R)
  -- whether `alphaTarget` is 0.3, which keeps the simulation moving, or 0
  pub warm : Bool
  -- the gestures that have started and not ended
  pub grips : List Grip

pub data Pull (R : Type 0) : Type 0 where
  -- a gesture starts on a node, moves to a point, and ends
  start_pull : ℕ → ℕ → Pull R
  pull_to : ℕ → R → R → Pull R
  end_pull : ℕ → Pull R

-- The body with that index after a change.
unfoldable pub at_body : {R : Type 0} → ℕ → (Body R → Body R) → List (Body R) → List (Body R)
at_body i change [] = []
at_body zero change (b ∷ bs) = change b ∷ bs
at_body (suc i) change (b ∷ bs) = b ∷ at_body i change bs

-- The node that a gesture drags.
unfoldable pub node_of : ℕ → List Grip → Option ℕ
node_of g [] = none
node_of g (p ∷ ps) = if p.gesture == g then some p.node else node_of g ps

unfoldable pub let_go : ℕ → List Grip → List Grip
let_go g [] = []
let_go g (p ∷ ps) = if p.gesture == g then ps else p ∷ let_go g ps

abbrev pub is_none : List Grip → Bool
is_none [] = true
is_none (p ∷ ps) = false

module _ {R : Type 0} where
  unfoldable pub fix_here : Body R → Body R
  fix_here b = record b { fx = some b.x; fy = some b.y }

  unfoldable pub fix_at : R → R → Body R → Body R
  fix_at x y b = record b { fx = some x; fy = some y }

  unfoldable pub set_free : Body R → Body R
  set_free b = record b { fx = none; fy = none }

  -- A gesture has been started once, and moves and ends after that.
  unfoldable pub pull : Pull R → Simulation R → Simulation R
  unfolding at_body node_of let_go fix_here fix_at set_free
  pull (start_pull g i) s = elim (node_of g s.grips) [
    | some j ↦ s
    | none ↦ record {
      bodies = at_body i fix_here s.bodies;
      warm = if is_none s.grips then true else s.warm;
      grips = record { gesture = g; node = i } ∷ s.grips;
    }
  ]
  pull (pull_to g x y) s = elim (node_of g s.grips) [
    | none ↦ s
    | some i ↦ record s { bodies = at_body i (fix_at x y) s.bodies }
  ]
  pull (end_pull g) s = elim (node_of g s.grips) [
    | none ↦ s
    | some i ↦ record {
      bodies = at_body i set_free s.bodies;
      warm = if is_none (let_go g s.grips) then false else s.warm;
      grips = let_go g s.grips;
    }
  ]

  unfoldable pub pulls : List (Pull R) → Simulation R → Simulation R
  unfolding pull
  pulls [] s = s
  pulls (p ∷ ps) s = pulls ps (pull p s)
