-- ===== src/OgImage/Edges.antt =====
-- The connections of gen-og-image.js.
use tabulum.Prelude.{ℕ, suc, List, [], ◌∷◌, ◌++◌, if◌then◌else◌}
use tabulum.Prelude.Floats.{Floats, ◌⊕◌, ◌⊖◌, ◌⊗◌, less}
use tabulum.OgImage.Config.{connection_dist}
use tabulum.OgImage.Nodes.{Node}

pub record Connection (R : Type 0) : Type 0 where
  pub i : ℕ
  pub j : ℕ
  pub dist : R

module _ {R : Type 0} ⦃f : Floats R⦄ where
  unfoldable pub distance : Node R → Node R → R
  distance a b = let dx = a.x ⊖ b.x in let dy = a.y ⊖ b.y in f.sqrt (dx ⊗ dx ⊕ dy ⊗ dy)

  -- The loop over `j`, for the node `a` with index `i`.
  unfoldable pub connect : ℕ → Node R → ℕ → List (Node R) → List (Connection R)
  unfolding distance
  connect i a j [] = []
  connect i a j (b ∷ bs) =
      if less (distance a b) connection_dist
      then record { i = i; j = j; dist = distance a b } ∷ connect i a (suc j) bs
      else connect i a (suc j) bs

  -- The loop over `i`.
  unfoldable pub connect_from : ℕ → List (Node R) → List (Connection R)
  unfolding connect
  connect_from i [] = []
  connect_from i (a ∷ others) = connect i a (suc i) others ++ connect_from (suc i) others

  unfoldable pub connections : List (Node R) → List (Connection R)
  unfolding connect_from
  connections nodes = connect_from 0 nodes
