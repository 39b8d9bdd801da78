-- ===== src/PrebuildDocs/Replaced.antt =====
-- What a replacement does to a text in which its pattern occurs.
use tabulum.Prelude.{
  ℕ, List, [], ◌∷◌, ◌++◌, some, Option-cases, inl, inr, ◌==◌, ◌≡◌, refl, arith, ap, false, All,
}
use tabulum.PrebuildDocs.Replacing.{drop_prefix, expand, replace_from, replace}

-- No dollar sign, so that the replacement is written as it is.
abbrev pub Plain : List ℕ → Type 0
Plain r = All (λ c. (c == b'$') ≡ false) r

drop_prefix-append : (p a : List ℕ) → drop_prefix p (p ++ a) ≡ some a
unfolding drop_prefix
drop_prefix-append [] a = refl
drop_prefix-append (c ∷ p) a = ground (arith, drop_prefix-append p a)

drop_prefix-found : (p s a : List ℕ) → drop_prefix p s ≡ some a → s ≡ p ++ a
unfolding drop_prefix
drop_prefix-found [] s a e = ground arith
drop_prefix-found (c ∷ p) [] a e = ground arith
drop_prefix-found (c ∷ p) (d ∷ s) a e = ground (arith, drop_prefix-found p s a)

expand-Plain : (b m a r : List ℕ) → Plain r → expand b m a r ≡ r
unfolding expand
expand-Plain b m a [] f = refl
expand-Plain b m a (c ∷ []) f = refl
expand-Plain b m a (c ∷ d ∷ r) f = rw f.0 (ap (c ∷◌) (expand-Plain b m a (d ∷ r) f.1))

replace_from-found :
    (p r before s a : List ℕ)
    → Plain r
    → drop_prefix p s ≡ some a
    → replace_from p r before s ≡ r ++ a
unfolding replace_from
replace_from-found p r before [] a f e =
    rw (e, replace_from) (ap (λ t. t ++ a) (expand-Plain before p a r f))
replace_from-found p r before (c ∷ s) a f e =
    rw (e, replace_from) (ap (λ t. t ++ a) (expand-Plain before p a r f))

replace_from-occurs :
    (p r before b a : List ℕ)
    → Plain r
    → (b' : List ℕ) × (a' : List ℕ) × (b ++ p ++ a ≡ b' ++ p ++ a')
      × (replace_from p r before (b ++ p ++ a) ≡ b' ++ r ++ a')
unfolding replace_from
replace_from-occurs p r before [] a f =
    ([], a, refl, replace_from-found p r before (p ++ a) a f (drop_prefix-append p a))
replace_from-occurs p r before (c ∷ b) a f = elim (Option-cases (drop_prefix p (c ∷ b ++ p ++ a))) [
  | inl e ↦
      let (b', a', same, found) = replace_from-occurs p r (before ++ c ∷ []) b a f in
      (c ∷ b', a', ap (c ∷◌) same, rw (e, replace_from) (ap (c ∷◌) found))
  | inr (after, e) ↦ (
    [],
    after,
    drop_prefix-found p (c ∷ b ++ p ++ a) after e,
    replace_from-found p r before (c ∷ b ++ p ++ a) after f e,
  )
]

-- Where the pattern occurs and the replacement has no dollar sign, the replacement takes the place of
-- one occurrence of the pattern, and all else stays.
pub replace-occurs :
    (p r b a : List ℕ)
    → Plain r
    → (b' : List ℕ) × (a' : List ℕ) × (b ++ p ++ a ≡ b' ++ p ++ a')
      × (replace p r (b ++ p ++ a) ≡ b' ++ r ++ a')
unfolding replace
replace-occurs p r b a f = replace_from-occurs p r [] b a f
