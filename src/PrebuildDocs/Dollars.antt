-- ===== src/PrebuildDocs/Dollars.antt =====
-- What String.replace makes of the dollar signs of a document.
use tabulum.Prelude.{
  Option-cases, inl, inr, ℕ, List, [], ◌∷◌, ◌++◌, false, ◌||◌, ◌==◌, ◌≡◌, refl, sym, ap, ◌∙◌, arith,
  All, codes, append_assoc,
}
use tabulum.PrebuildDocs.Replacing.{drop_prefix, expand, replace_from, replace}
use tabulum.PrebuildDocs.Pages.{set_content}

abbrev pub IsPlain : List ℕ → Type 0
IsPlain = All (λ c. c == b'$' ≡ false)

-- A text whose first character, if it has one, makes no pattern of a dollar sign before it.
abbrev pub IsTame : List ℕ → Type 0
IsTame [] = Unit
IsTame (c ∷ s) = (c == b'$' || c == b'&' || c == 96 || c == 39) ≡ false

module _ (before matched after : List ℕ) where
  expand-cons :
      (c : ℕ) (s : List ℕ)
      → c == b'$' ≡ false
      → expand before matched after (c ∷ s) ≡ c ∷ expand before matched after s
  unfolding expand
  expand-cons c [] h = refl
  expand-cons c (d ∷ s) h = ground arith

  expand-append :
      (s r : List ℕ)
      → IsPlain s
      → expand before matched after (s ++ r) ≡ s ++ expand before matched after r
  expand-append [] r h = refl
  expand-append (c ∷ s) r h = expand-cons c (s ++ r) h.0 ∙ ap (λ x. c ∷ x) (expand-append s r h.1)

  -- Two dollar signs come out as one does.
  expand-double :
      (t r : List ℕ)
      → IsTame t
      → IsTame r
      → expand before matched after (b'$' ∷ b'$' ∷ t ++ r)
        ≡ expand before matched after (b'$' ∷ t ++ r)
  unfolding expand
  expand-double [] [] h k = refl
  expand-double [] (c ∷ r) h k = ground arith
  expand-double (c ∷ t) r h k = ground arith

  expand-both :
      (pre s t r : List ℕ)
      → IsPlain pre
      → IsPlain s
      → IsTame t
      → IsTame r
      → expand before matched after (pre ++ ((s ++ b'$' ∷ b'$' ∷ t) ++ r))
        ≡ expand before matched after (pre ++ ((s ++ b'$' ∷ t) ++ r))
  expand-both pre s t r p h k l =
      let two = b'$' ∷ (b'$' ∷ (t ++ r)) in
      let single = b'$' ∷ (t ++ r) in
      ap (λ x. expand before matched after (pre ++ x)) (append_assoc s (b'$' ∷ b'$' ∷ t) r)
      ∙ expand-append pre (s ++ two) p
      ∙ ap (λ x. pre ++ x)
          (expand-append s two h
            ∙ ap (λ x. s ++ x) (expand-double t r k l)
            ∙ sym (expand-append s single h))
      ∙ sym (expand-append pre (s ++ single) p)
      ∙ sym (ap (λ x. expand before matched after (pre ++ x)) (append_assoc s (b'$' ∷ t) r))

replace_from-same :
    (p r r' before s : List ℕ)
    → ((b m a : List ℕ) → expand b m a r ≡ expand b m a r')
    → replace_from p r before s ≡ replace_from p r' before s
unfolding replace_from
replace_from-same p r r' before [] e = elim (Option-cases (drop_prefix p [])) [
  | inl q ↦ rw (q, replace_from) refl
  | inr (after, q) ↦ rw (q, replace_from) (ap (λ x. x ++ after) (e before p after))
]
replace_from-same p r r' before (c ∷ s) e = elim (Option-cases (drop_prefix p (c ∷ s))) [
  | inl q ↦ rw (q, replace_from) (ap (λ x. c ∷ x) (replace_from-same p r r' (before ++ c ∷ []) s e))
  | inr (after, q) ↦ rw (q, replace_from) (ap (λ x. x ++ after) (e before p after))
]

-- A dollar sign is lost from a document that has two in a row: as the content is given to
-- String.replace as a pattern, `$$` makes the same page as `$`, whatever the template, where no dollar
-- sign comes before and none of `$`, `&`, a backquote and an apostrophe comes next.
pub set_content_dollars :
    (s t page : List ℕ)
    → IsPlain s
    → IsTame t
    → set_content (s ++ b'$' ∷ b'$' ∷ t) page ≡ set_content (s ++ b'$' ∷ t) page
unfolding set_content replace
set_content_dollars s t page h k =
    replace_from-same (codes "<p class=\"doc-loading\">Loading documentation...</p>")
      (codes "<div data-prerendered=\"true\">" ++ (s ++ b'$' ∷ b'$' ∷ t) ++ codes "</div>")
      (codes "<div data-prerendered=\"true\">" ++ (s ++ b'$' ∷ t) ++ codes "</div>") [] page
      (λ b m a.
        expand-both b m a (codes "<div data-prerendered=\"true\">") s t (codes "</div>")
          (ground arith) h k refl)
