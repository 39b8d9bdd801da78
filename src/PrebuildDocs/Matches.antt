-- ===== src/PrebuildDocs/Matches.antt =====
-- A match of the headings' pattern of prebuild-docs.js against the text that it stands for.
use tabulum.Prelude.{
  inr, inl, Option-cases, Bool-cases, ℕ, zero, suc, List, [], ◌∷◌, ◌++◌, some, Bool, true, false,
  ◌≡◌, refl, sym, ap, ◌∙◌, arith, codes, ◌==◌, length, ◌+◌,
}
use tabulum.PrebuildDocs.Ids.{Level, h2, h3}
use tabulum.PrebuildDocs.Cutting.{tag, opening, to_bracket, closes_level, to_closing, match_here}

abbrev pub drop : ℕ → List ℕ → List ℕ
drop zero s = s
drop (suc n) [] = []
drop (suc n) (c ∷ s) = drop n s

-- The opening tag with the text behind it, and the closing tag with the text behind it.
abbrev pub before : Bool → Level → List ℕ → List ℕ → List ℕ
before b l attrs rest = codes "<" ++ tag b l ++ (attrs ++ b'>' ∷ rest)

abbrev pub behind : Bool → Level → List ℕ → List ℕ
behind c l rest = codes "</" ++ tag c l ++ (b'>' ∷ rest)

opening-eq :
    (s : List ℕ) (b : Bool) (l : Level) (r : List ℕ)
    → opening s ≡ some (b, l, r)
    → s ≡ codes "<" ++ tag b l ++ r
unfolding opening
opening-eq [] b l r e = cc
opening-eq (c ∷ []) b l r e = cc
opening-eq (c ∷ d ∷ []) b l r e = cc
opening-eq (c ∷ d ∷ x ∷ s) b l r e = ground arith

to_bracket-eq : (s a r : List ℕ) → to_bracket s ≡ some (a, r) → s ≡ a ++ b'>' ∷ r
unfolding to_bracket
to_bracket-eq [] a r e = cc
to_bracket-eq (c ∷ s) a r e = elim (Option-cases (to_bracket s)) [
  | inl n ↦ ground arith
  | inr ((a', r'), y) ↦ ground (arith, to_bracket-eq s a' r' y)
]

closes_level-eq :
    (l : Level) (s : List ℕ) → closes_level l s ≡ true → (c : Bool) × (s ≡ behind c l (drop 5 s))
unfolding closes_level
closes_level-eq l [] e = absurd (cc)
closes_level-eq l (c ∷ []) e = absurd (cc)
closes_level-eq l (c ∷ d ∷ []) e = absurd (cc)
closes_level-eq l (c ∷ d ∷ x ∷ []) e = absurd (cc)
closes_level-eq l (c ∷ d ∷ x ∷ y ∷ []) e = absurd (cc)
closes_level-eq h2 (c ∷ d ∷ x ∷ y ∷ z ∷ s) e = elim (Bool-cases (x == b'H')) [
  | inl k ↦ (true, ground arith)
  | inr k ↦ (false, ground arith)
]
closes_level-eq h3 (c ∷ d ∷ x ∷ y ∷ z ∷ s) e = elim (Bool-cases (x == b'H')) [
  | inl k ↦ (true, ground arith)
  | inr k ↦ (false, ground arith)
]

to_closing-eq :
    (l : Level) (s t : List ℕ)
    → to_closing l s ≡ some t
    → (c : Bool) × (s ≡ t ++ behind c l (drop 5 (drop (length t) s)))
unfolding to_closing
to_closing-eq l [] t e = absurd (cc)
to_closing-eq l (x ∷ s) t e = elim (Bool-cases (closes_level l (x ∷ s))) [
  | inl y ↦ let (c, k) = closes_level-eq l (x ∷ s) y in (c, ground (arith, k))
  | inr n ↦ elim (Option-cases (to_closing l s)) [
    | inl m ↦ absurd (ground arith)
    | inr (t', y) ↦ let (c, k) = to_closing-eq l s t' y in (c, ground (arith, k))
  ]
]

drop-nil : (n : ℕ) → drop n [] ≡ []
drop-nil zero = refl
drop-nil (suc n) = refl

drop-add : (m n : ℕ) (s : List ℕ) → drop (m + n) s ≡ drop n (drop m s)
drop-add zero n s = ground arith
drop-add (suc m) n [] = drop-nil (suc m + n) ∙ sym (drop-nil n)
drop-add (suc m) n (c ∷ s) = let e : suc m + n ≡ suc (m + n) = omega arith in rw e (drop-add m n s)

drop-append : (s t : List ℕ) → drop (length s) (s ++ t) ≡ t
drop-append [] t = refl
drop-append (c ∷ s) t = drop-append s t

-- What is left behind the closing tag, counted from the second character of the match.
drop-match :
    (b : Bool) (l : Level) (c : ℕ) (s attrs r t : List ℕ)
    → c ∷ s ≡ before b l attrs r
    → drop (8 + length attrs + length t) s ≡ drop 5 (drop (length t) r)
drop-match b l c s attrs r t e =
    let k : 8 + length attrs + length t ≡ 2 + (length attrs + (1 + (length t + 5))) = omega arith in
    let within : drop 2 s ≡ attrs ++ b'>' ∷ r = name_passed b l e in
    rw k (
      drop-add 2 (length attrs + (1 + (length t + 5))) s
      ∙ ap (drop (length attrs + (1 + (length t + 5)))) within
      ∙ drop-add (length attrs) (1 + (length t + 5)) (attrs ++ b'>' ∷ r)
      ∙ ap (drop (1 + (length t + 5))) (drop-append attrs (b'>' ∷ r))
      ∙ drop-add 1 (length t + 5) (b'>' ∷ r)
      ∙ drop-add (length t) 5 r)
  where
    name_passed : (b : Bool) (l : Level) → c ∷ s ≡ before b l attrs r → drop 2 s ≡ attrs ++ b'>' ∷ r
    name_passed false h2 e = ap (drop 3) e
    name_passed false h3 e = ap (drop 3) e
    name_passed true h2 e = ap (drop 3) e
    name_passed true h3 e = ap (drop 3) e

match_here-parts :
    (s : List ℕ) (b : Bool) (l : Level) (attrs t : List ℕ)
    → match_here s ≡ some (b, l, attrs, t)
    → (r : List ℕ) × (r' : List ℕ) × (opening s ≡ some (b, l, r))
      × (to_bracket r ≡ some (attrs, r'))
      × (to_closing l r' ≡ some t)
unfolding match_here
match_here-parts s b l attrs t e = elim (Option-cases (opening s)) [
  | inl n ↦ absurd (cc (rw (n, match_here) at e))
  | inr ((b', l', r), o) ↦ elim (Option-cases (to_bracket r)) [
    | inl n ↦ absurd (cc (rw (o, n, match_here) at e))
    | inr ((attrs', r'), a) ↦ elim (Option-cases (to_closing l' r')) [
      | inl n ↦ absurd (cc (rw (o, a, n, match_here) at e))
      | inr (t', m) ↦
          let same = rw (o, a, m, match_here) at e in
          (r, r', cc (o, same), cc (a, same), cc (m, same))
    ]
  ]
]

-- The match and what follows it, with the case of the letter in the closing tag.
pub match_here-eq :
    (x : ℕ) (s : List ℕ) (b : Bool) (l : Level) (attrs t : List ℕ)
    → match_here (x ∷ s) ≡ some (b, l, attrs, t)
    → (c : Bool) × (x ∷ s
        ≡ before b l attrs (t ++ behind c l (drop (8 + length attrs + length t) s)))
match_here-eq x s b l attrs t e =
    let (r, r', o, a, m) = match_here-parts (x ∷ s) b l attrs t e in
    let whole : x ∷ s ≡ before b l attrs r' =
      opening-eq (x ∷ s) b l r o
      ∙ ap (λ y. codes "<" ++ tag b l ++ y) (to_bracket-eq r attrs r' a) in
    let (c, k) = to_closing-eq l r' t m in
    (
      c,
      whole
          ∙ ap (before b l attrs) k
          ∙ ap (λ y. before b l attrs (t ++ behind c l y))
              (sym (drop-match b l x s attrs r' t whole)),
    )
