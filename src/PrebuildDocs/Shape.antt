-- ===== src/PrebuildDocs/Shape.antt =====
-- The characters of a slug.
use tabulum.Prelude.{
  if_cases, ℕ, List, [], ◌∷◌, Bool, true, false, ◌||◌, ◌&&◌, ◌==◌, ◌≡◌, refl, arith, Bool-cases,
  inl, inr, All,
}
use mathlib.Core.Path.{subst}
use tabulum.PrebuildDocs.Slugs.{
  hyphen, is_space, is_word, lower_case, keep, runs, hyphenate, squeeze, drop_first, drop_last,
  slug,
}

-- Letters and digits in groups, with one hyphen between two groups; `after` tells whether a group's
-- character comes before, so that a hyphen may stand first.
pub IsSlugFrom : Bool → List ℕ → Type 0
IsSlugFrom after [] = Unit
IsSlugFrom after (c ∷ []) = is_word c ≡ true
IsSlugFrom after (c ∷ d ∷ s) =
    (((is_word c || (after && c == hyphen)) ≡ true) × IsSlugFrom (is_word c) (d ∷ s))

-- As before, where the text may end in a hyphen.
Grouped : Bool → List ℕ → Type 0
Grouped after [] = Unit
Grouped after (c ∷ s) = ((is_word c || (after && c == hyphen)) ≡ true) × Grouped (is_word c) s

-- Only what may stand in a slug, in any order.
abbrev Allowed : List ℕ → Type 0
Allowed s = All (λ c. (is_word c || c == hyphen) ≡ true) s

keep-kept : (s : List ℕ) → All (λ c. (is_word c || is_space c || c == hyphen) ≡ true) (keep s)
unfolding keep
keep-kept [] = tt
keep-kept (c ∷ s) = elim (Bool-cases (is_word c || is_space c || c == hyphen)) [
  | inl kept ↦ rw kept (kept, keep-kept s)
  | inr dropped ↦ rw dropped (keep-kept s)
]

hyphen_not_word : is_word hyphen ≡ false
unfolding is_word
hyphen_not_word = refl

hyphen-no_word : (c : ℕ) → (c == hyphen) ≡ true → is_word c ≡ false
unfolding is_word
hyphen-no_word c e = ground arith

hyphenate-Allowed :
    (inside : Bool) (s : List ℕ)
    → All (λ c. (is_word c || is_space c || c == hyphen) ≡ true) s
    → Allowed (runs is_space inside s)
unfolding runs
hyphenate-Allowed inside [] a = tt
hyphenate-Allowed inside (c ∷ s) a =
    let rest = hyphenate-Allowed (is_space c) s a.1 in
    if_cases (λ t. Allowed t) (is_space c)
      (λ _. if_cases (λ t. Allowed t) inside (λ _. rest) (λ _. (ground arith, rest)))
      (λ n. (ground arith, rest))

squeeze-Grouped :
    (s : List ℕ)
    → Allowed s
    → Grouped true (runs (λ c. c == hyphen) false s)
      × Grouped false (runs (λ c. c == hyphen) true s)
unfolding runs Grouped
squeeze-Grouped [] a = (tt, tt)
squeeze-Grouped (c ∷ s) a =
    let (free, bound) = squeeze-Grouped s a.1 in
    elim (Bool-cases (c == hyphen)) [
      | inl e ↦ rw e ((ground arith, rw hyphen_not_word bound), bound)
      | inr n ↦ let w : is_word c ≡ true = ground arith in rw n (rw w ((refl, free), (refl, free)))
    ]

drop_first-Grouped : (s : List ℕ) → Grouped true s → Grouped false (drop_first s)
unfolding drop_first Grouped
drop_first-Grouped [] g = tt
drop_first-Grouped (c ∷ s) g = elim (Bool-cases (c == hyphen)) [
  | inl e ↦ rw e (subst (λ b. Grouped b s) (hyphen-no_word c e) g.1)
  | inr n ↦ rw n (ground arith, g.1)
]

drop_last-Grouped : (after : Bool) (s : List ℕ) → Grouped after s → IsSlugFrom after (drop_last s)
unfolding drop_last Grouped IsSlugFrom
drop_last-Grouped after [] g = tt
drop_last-Grouped after (c ∷ []) g =
    if_cases (λ t. IsSlugFrom after t) (c == hyphen) (λ _. tt) (λ n. ground arith)
drop_last-Grouped after (c ∷ d ∷ []) g =
    if_cases (λ t. IsSlugFrom after (c ∷ t)) (d == hyphen) (λ e. ground (arith, hyphen-no_word d e))
      (λ n. (g.0, ground arith))
drop_last-Grouped after (c ∷ d ∷ e ∷ s) g = (g.0, drop_last-Grouped (is_word c) (d ∷ e ∷ s) g.1)

-- A slug is letters and digits of ASCII in groups, with one hyphen between two groups and none at
-- either end.
pub slug-IsSlugFrom : (s : List ℕ) → IsSlugFrom false (slug s)
unfolding slug hyphenate squeeze
slug-IsSlugFrom s =
    drop_last-Grouped false (drop_first (squeeze (hyphenate (keep (lower_case s))))) (
      drop_first-Grouped (squeeze (hyphenate (keep (lower_case s)))) (
        (squeeze-Grouped (hyphenate (keep (lower_case s)))
          (hyphenate-Allowed false (keep (lower_case s)) (keep-kept (lower_case s)))).0))
