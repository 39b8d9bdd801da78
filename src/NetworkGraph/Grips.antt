-- ===== src/NetworkGraph/Grips.antt =====
-- The nodes that the gestures of the 2D view drag.
use tabulum.Prelude.{ℕ, List, [], ◌∷◌, some, Bool, true, false, ◌||◌, ◌==◌, ◌≡◌, refl, arith}
use tabulum.NetworkGraph.Drag.{Grip, node_of, let_go, is_none}

-- Whether a gesture drags the node.
abbrev pub is_dragged : ℕ → List Grip → Bool
is_dragged i [] = false
is_dragged i (p ∷ ps) = p.node == i || is_dragged i ps

-- No two gestures drag one node.
abbrev pub Distinct : List Grip → Type 0
Distinct [] = Unit
Distinct (p ∷ ps) = (is_dragged p.node ps ≡ false) × Distinct ps

-- A gesture that drags a node is listed with it.
pub node_of-dragged :
    (g i : ℕ) (ps : List Grip)
    → node_of g ps ≡ some i
    → (is_dragged i ps ≡ true) × (is_none ps ≡ false)
unfolding node_of
node_of-dragged g i [] e = cc
node_of-dragged g i (p ∷ ps) e = ground (arith, node_of-dragged g i ps)

-- Another node is dragged as before when the gesture has ended.
pub dragged-let_go :
    (g i k : ℕ) (ps : List Grip)
    → node_of g ps ≡ some i
    → (i == k) ≡ false
    → is_dragged k (let_go g ps) ≡ is_dragged k ps
unfolding node_of let_go
dragged-let_go g i k [] e n = cc
dragged-let_go g i k (p ∷ ps) e n = ground (arith, dragged-let_go g i k ps)

-- Nothing drags its node any more, if nothing else did.
pub freed-let_go :
    (g i : ℕ) (ps : List Grip)
    → node_of g ps ≡ some i
    → Distinct ps
    → is_dragged i (let_go g ps) ≡ false
unfolding node_of let_go
freed-let_go g i [] e d = cc
freed-let_go g i (p ∷ ps) e d =
    ground (arith, freed-let_go g i ps, node_of-dragged g i ps, d.0, d.1)

let_go-dragged :
    (g k : ℕ) (ps : List Grip) → is_dragged k ps ≡ false → is_dragged k (let_go g ps) ≡ false
unfolding let_go
let_go-dragged g k [] e = refl
let_go-dragged g k (p ∷ ps) e = ground (arith, let_go-dragged g k ps)

pub Distinct-let_go : (g : ℕ) (ps : List Grip) → Distinct ps → Distinct (let_go g ps)
unfolding let_go
Distinct-let_go g [] d = tt
Distinct-let_go g (p ∷ ps) d =
    ground (arith, Distinct-let_go g ps d.1, let_go-dragged g p.node ps d.0)
