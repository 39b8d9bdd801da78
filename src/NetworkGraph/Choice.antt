-- ===== src/NetworkGraph/Choice.antt =====
-- The hue that a node takes is the best of the candidates.
use tabulum.Prelude.{
  sym, ap, ℕ, zero, suc, ◌+◌, ◌≤◌, ◌<◌, List, [], ◌∷◌, Option, none, some, ◌≡◌, refl, arith, inl,
  inr, ltb, Bool-cases,
}
use tabulum.NetworkGraph.Hues.{turn, candidate, hue_dist, min_dist, search_hue, best_hue}

-- The distance round the circle is symmetric, at most half a turn, and 0 only between equal hues.
pub hue_dist_lem :
    (a b : ℕ)
    → a < turn
    → b < turn
    → (hue_dist a b ≡ hue_dist b a) × (hue_dist a b ≤ 180000) × (hue_dist a b ≡ 0 → a ≡ b)
unfolding hue_dist
hue_dist_lem a b h k = (ground arith, ground arith, λ e. ground arith)

module _ (cand dist : ℕ → ℕ) where
  shift : (k attempt : ℕ) → dist (cand (k + suc attempt)) ≡ dist (cand (suc k + attempt))
  shift k attempt = ap (λ i. dist (cand i)) (omega arith)

  start : (attempt : ℕ) → dist (cand (0 + attempt)) ≡ dist (cand attempt)
  start attempt = ap (λ i. dist (cand i)) (omega arith)

  -- With a hue chosen, the loop ends at one that is no worse.
  search_hue-ge :
      (left attempt b hue : ℕ)
      → b ≡ dist hue
      → b ≤ dist (search_hue cand dist left attempt (some b) hue)
  unfolding search_hue
  search_hue-ge zero attempt b hue e = omega arith
  search_hue-ge (suc left) attempt b hue e = elim (Bool-cases (ltb b (dist (cand attempt)))) [
    | inl better ↦
        rw better (
          grind (arith, search_hue-ge left (suc attempt) (dist (cand attempt)) (cand attempt) refl))
    | inr worse ↦ rw worse (search_hue-ge left (suc attempt) b hue e)
  ]

  -- It is no worse than any candidate that the loop still tries.
  search_hue-best :
      (left attempt b hue k : ℕ)
      → b ≡ dist hue
      → k < left
      → dist (cand (k + attempt)) ≤ dist (search_hue cand dist left attempt (some b) hue)
  unfolding search_hue
  search_hue-best zero attempt b hue k e h = omega arith
  search_hue-best (suc left) attempt b hue zero e h =
      elim (Bool-cases (ltb b (dist (cand attempt)))) [
        | inl better ↦ rw better (
            rw (start attempt)
              (search_hue-ge left (suc attempt) (dist (cand attempt)) (cand attempt) refl))
        | inr worse ↦
            rw worse (rw (start attempt) (grind (arith, search_hue-ge left (suc attempt) b hue e)))
      ]
  search_hue-best (suc left) attempt b hue (suc k) e h =
      elim (Bool-cases (ltb b (dist (cand attempt)))) [
        | inl better ↦ rw better (
            rw (sym (shift k attempt)) (
              search_hue-best left (suc attempt) (dist (cand attempt)) (cand attempt) k refl
                (omega arith)))
        | inr worse ↦ rw worse (
            rw (sym (shift k attempt)) (search_hue-best left (suc attempt) b hue k e (omega arith)))
      ]

  -- Whatever holds of the hue so far and of the candidates left holds of the hue chosen.
  search_hue-keeps {ℓ} :
      (P : ℕ → Type ℓ) (n : ℕ)
      → ((k : ℕ) → k < n → P (cand k))
      → (left attempt : ℕ) → attempt + left ≤ n
      → (best : Option ℕ) (hue : ℕ) → P hue
      → P (search_hue cand dist left attempt best hue)
  unfolding search_hue
  search_hue-keeps P n all zero attempt l best hue p = p
  search_hue-keeps P n all (suc left) attempt l none hue p =
      search_hue-keeps P n all left (suc attempt) (omega arith) (some (dist (cand attempt)))
        (cand attempt) (all attempt (omega arith))
  search_hue-keeps P n all (suc left) attempt l (some b) hue p =
      elim (Bool-cases (ltb b (dist (cand attempt)))) [
        | inl better ↦ rw better (
            search_hue-keeps P n all left (suc attempt) (omega arith) (some (dist (cand attempt)))
              (cand attempt) (all attempt (omega arith)))
        | inr worse ↦
            rw worse (search_hue-keeps P n all left (suc attempt) (omega arith) (some b) hue p)
      ]

later : (f : ℕ → ℕ) → (k : ℕ) → f (suc k) ≡ f (k + 1)
later f k = ap f (omega arith)

no_farther :
    (base i h : ℕ)
    → (hs : List ℕ) → (k : ℕ) → k < 12
    → min_dist (candidate base i k) h hs ≤ min_dist (best_hue base i (h ∷ hs)) h hs
unfolding best_hue search_hue
no_farther base i h hs zero l =
    search_hue-ge (candidate base i) (λ c. min_dist c h hs) 11 1
      (min_dist (candidate base i 0) h hs) (candidate base i 0) refl
no_farther base i h hs (suc k) l =
    (rw (later (λ c. min_dist (candidate base i c) h hs) k) (
      search_hue-best (candidate base i) (λ c. min_dist c h hs) 11 1
        (min_dist (candidate base i 0) h hs) (candidate base i 0) k refl (omega arith)))

-- A node with coloured neighbours gets one of its twelve candidate hues, and none of the twelve is
-- farther from the nearest of the neighbours' hues.
pub best_hue-farthest :
    (base i h : ℕ) (hs : List ℕ)
    → ((k : ℕ) × (k < 12) × (best_hue base i (h ∷ hs) ≡ candidate base i k))
      × ((k : ℕ)
          → k < 12
          → min_dist (candidate base i k) h hs ≤ min_dist (best_hue base i (h ∷ hs)) h hs)
unfolding best_hue
best_hue-farthest base i h hs = (
  search_hue-keeps (candidate base i) (λ c. min_dist c h hs)
      (λ c. (k : ℕ) × (k < 12) × (c ≡ candidate base i k)) 12 (λ k l. (k, l, refl)) 12 0
      (omega arith) none (candidate base i 0) (0, omega arith, refl),
  no_farther base i h hs,
)

pub candidate-lt : (base i k : ℕ) → candidate base i k < turn
unfolding candidate
candidate-lt base i k = omega arith

pub best_hue-lt : (base i : ℕ) → (hs : List ℕ) → best_hue base i hs < turn
unfolding best_hue
best_hue-lt base i [] = candidate-lt base i 0
best_hue-lt base i (h ∷ hs) =
    search_hue-keeps (candidate base i) (λ c. min_dist c h hs) (λ c. c < turn) 12
      (λ k l. candidate-lt base i k) 12 0 (omega arith) none (candidate base i 0)
      (candidate-lt base i 0)
