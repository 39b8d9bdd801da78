-- ===== src/NetworkGraph/Sorting.antt =====
-- The order in which the nodes are coloured.
use tabulum.Prelude.{
  ◌==◌, ℕ, ◌≤◌, List, [], ◌∷◌, All, ◌≡◌, refl, arith, ltb, if◌then◌else◌, Bool-cases, inl, inr,
}
use tabulum.NetworkGraph.Sort.{insert, sort}

module _ {ℓ} {A : Type ℓ} (key : A → ℕ) where
  -- Each element's key is at least the keys of all that follow it.
  pub IsFalling : List A → Type 0
  IsFalling [] = Unit
  IsFalling (x ∷ xs) = All (λ y. key y ≤ key x) xs × IsFalling xs

  -- The elements whose key is `k`, in order.
  pub with_key : ℕ → List A → List A
  with_key k [] = []
  with_key k (x ∷ xs) = if key x == k then x ∷ with_key k xs else with_key k xs

  All-insert {κ} : (P : A → Type κ) (x : A) (ys : List A) → P x → All P ys → All P (insert key x ys)
  unfolding insert
  All-insert P x [] p a = (p, tt)
  All-insert P x (y ∷ ys) p a = elim (Bool-cases (ltb (key x) (key y))) [
    | inl lower ↦ rw lower (a.0, All-insert P x ys p a.1)
    | inr upper ↦ rw upper (p, a)
  ]

  All-le : (m n : ℕ) (ys : List A) → m ≤ n → All (λ y. key y ≤ m) ys → All (λ y. key y ≤ n) ys
  All-le m n [] h a = tt
  All-le m n (y ∷ ys) h a = (omega (arith, a.0), All-le m n ys h a.1)

  insert-IsFalling : (x : A) (ys : List A) → IsFalling ys → IsFalling (insert key x ys)
  unfolding insert IsFalling
  insert-IsFalling x [] f = (tt, tt)
  insert-IsFalling x (y ∷ ys) f = elim (Bool-cases (ltb (key x) (key y))) [
    | inl lower ↦
        rw lower (
          All-insert (λ z. key z ≤ key y) x ys (grind (arith, lower)) f.0,
          insert-IsFalling x ys f.1,
        )
    | inr upper ↦
        let h : key y ≤ key x = grind (arith, upper) in
        rw upper ((h, All-le (key y) (key x) ys h f.0), f)
  ]

  sort-IsFalling : (xs : List A) → IsFalling (sort key xs)
  unfolding sort IsFalling
  sort-IsFalling [] = tt
  sort-IsFalling (x ∷ xs) = insert-IsFalling x (sort key xs) (sort-IsFalling xs)

  with_key-insert :
      (k : ℕ) (x : A) (ys : List A) → with_key k (insert key x ys) ≡ with_key k (x ∷ ys)
  unfolding insert with_key
  with_key-insert k x [] = refl
  with_key-insert k x (y ∷ ys) = elim (Bool-cases (ltb (key x) (key y))) [
    | inl lower ↦ rw lower (rw (with_key-insert k x ys) (ground arith))
    | inr upper ↦ rw upper refl
  ]

  with_key-sort : (k : ℕ) (xs : List A) → with_key k (sort key xs) ≡ with_key k xs
  unfolding sort with_key
  with_key-sort k [] = refl
  with_key-sort k (x ∷ xs) = rw (with_key-insert k x (sort key xs)) (rw (with_key-sort k xs) refl)

-- The sorted list falls, and the elements of any one key are the same, in the same order, as before.
pub sort_lem {ℓ} :
    {A : Type ℓ} (key : A → ℕ) (xs : List A)
    → IsFalling key (sort key xs) × ((k : ℕ) → with_key key k (sort key xs) ≡ with_key key k xs)
sort_lem key xs = (sort-IsFalling key xs, λ k. with_key-sort key k xs)
