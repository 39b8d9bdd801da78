-- ===== src/NetworkGraph/Sort.antt =====
-- The nodes by falling degree: `sort` is stable, so nodes of one degree keep their order.
use tabulum.Prelude.{ℕ, List, [], ◌∷◌, ltb, if◌then◌else◌}

module _ {ℓ} {A : Type ℓ} (key : A → ℕ) where
  unfoldable pub insert : A → List A → List A
  insert x [] = x ∷ []
  insert x (y ∷ ys) = if ltb (key x) (key y) then y ∷ insert x ys else x ∷ y ∷ ys

  unfoldable pub sort : List A → List A
  unfolding insert
  sort [] = []
  sort (x ∷ xs) = insert x (sort xs)
