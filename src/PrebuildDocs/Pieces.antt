-- ===== src/PrebuildDocs/Pieces.antt =====
-- injectHeadingIds of prebuild-docs.js on the text of a document.
use tabulum.Prelude.{
  inr, inl, Option-cases, ℕ, zero, suc, List, [], ◌∷◌, ◌++◌, none, some, Bool, true, false, ◌≡◌,
  refl, sym, ap, ◌∙◌, subst, length, ◌+◌, map, append_assoc,
}
use tabulum.PrebuildDocs.Ids.{
  Level, h2, h3, Piece, between, heading, Used, Link, id_attribute, inject_from, inject_heading_ids,
  links_from, next_id, strip_tags,
}
use tabulum.PrebuildDocs.Slugs.{slug}
use tabulum.PrebuildDocs.Cutting.{
  match_here, pass_over, cut_from, cut, piece_text, text_of, inject_ids,
}
use tabulum.PrebuildDocs.Matches.{drop, before, behind, match_here-eq}

-- The pieces written one after the other, where the headings in turn have a closing tag with a capital
-- letter or not, and a text put in front of their attributes.
abbrev pub woven : List Bool → List (List ℕ) → List Piece → List ℕ
woven cs is [] = []
woven cs is (between s ∷ ps) = s ++ woven cs is ps
woven [] is (heading b l attrs t ∷ ps) = []
woven (c ∷ cs) [] (heading b l attrs t ∷ ps) = []
woven (c ∷ cs) (i ∷ is) (heading b l attrs t ∷ ps) =
    before b l (i ++ attrs) (t ++ behind c l (woven cs is ps))

-- Nothing is put in; and the closing tags are as the opening ones.
abbrev pub nothings : List Piece → List (List ℕ)
nothings [] = []
nothings (between s ∷ ps) = nothings ps
nothings (heading b l attrs t ∷ ps) = [] ∷ nothings ps

abbrev pub capitals : List Piece → List Bool
capitals [] = []
capitals (between s ∷ ps) = capitals ps
capitals (heading b l attrs t ∷ ps) = b ∷ capitals ps

woven-pass_over :
    (c : ℕ) (cs : List Bool) (ps : List Piece)
    → woven cs (nothings (pass_over c ps)) (pass_over c ps) ≡ c ∷ woven cs (nothings ps) ps
woven-pass_over c cs [] = refl
woven-pass_over c cs (between s ∷ ps) = refl
woven-pass_over c cs (heading b l a t ∷ ps) = refl

cut_from-none :
    (c : ℕ) (s : List ℕ)
    → match_here (c ∷ s) ≡ none
    → cut_from 0 (c ∷ s) ≡ pass_over c (cut_from 0 s)
unfolding cut_from
cut_from-none c s e = rw (e, cut_from) refl

cut_from-some :
    (c : ℕ) (s : List ℕ) (b : Bool) (l : Level) (attrs t : List ℕ)
    → match_here (c ∷ s) ≡ some (b, l, attrs, t)
    → cut_from 0 (c ∷ s) ≡ heading b l attrs t ∷ cut_from (8 + length attrs + length t) s
unfolding cut_from
cut_from-some c s b l attrs t e = rw (e, cut_from) refl

-- The pieces are the text itself.
abbrev IsWoven : List ℕ → List Piece → Type 0
IsWoven s ps = (cs : List Bool) × (s ≡ woven cs (nothings ps) ps)

cut_from-IsWoven : (skip : ℕ) (s : List ℕ) → IsWoven (drop skip s) (cut_from skip s)
unfolding cut_from
cut_from-IsWoven zero [] = ([], refl)
cut_from-IsWoven (suc skip) [] = ([], refl)
cut_from-IsWoven (suc skip) (x ∷ s) = cut_from-IsWoven skip s
cut_from-IsWoven zero (x ∷ s) = elim (Option-cases (match_here (x ∷ s))) [
  | inl n ↦
      let (cs, e) = cut_from-IsWoven 0 s in
      subst (IsWoven (x ∷ s)) (sym (cut_from-none x s n))
        (cs, ap (λ r. x ∷ r) e ∙ sym (woven-pass_over x cs (cut_from 0 s)))
  | inr ((b, l, attrs, t), m) ↦
      let (c, here) = match_here-eq x s b l attrs t m in
      let (cs, e) = cut_from-IsWoven (8 + length attrs + length t) s in
      subst (IsWoven (x ∷ s)) (sym (cut_from-some x s b l attrs t m))
        (c ∷ cs, here ∙ ap (λ r. before b l attrs (t ++ behind c l r)) e)
]

piece_text-woven :
    (b : Bool) (l : Level) (attrs t rest : List ℕ)
    → piece_text (heading b l attrs t) ++ rest ≡ before b l attrs (t ++ behind b l rest)
unfolding piece_text
piece_text-woven false h2 attrs t rest = simp append_assoc refl
piece_text-woven false h3 attrs t rest = simp append_assoc refl
piece_text-woven true h2 attrs t rest = simp append_assoc refl
piece_text-woven true h3 attrs t rest = simp append_assoc refl

abbrev pub id_of : Link → List ℕ
id_of l = l.id

text_of-inject_from :
    (used : Used) (seen : Bool) (ps : List Piece)
    → text_of (inject_from used ps)
      ≡ woven (capitals ps) (map id_attribute (map id_of (links_from used seen ps))) ps
unfolding text_of inject_from links_from piece_text
text_of-inject_from used seen [] = refl
text_of-inject_from used seen (between s ∷ ps) = ap (λ r. s ++ r) (text_of-inject_from used seen ps)
text_of-inject_from used seen (heading b h2 attrs t ∷ ps) =
    let (id, used') = next_id (slug (strip_tags false t)) used in
    piece_text-woven b h2 (id_attribute id ++ attrs) t (text_of (inject_from used' ps))
    ∙ ap (λ r. before b h2 (id_attribute id ++ attrs) (t ++ behind b h2 r))
        (text_of-inject_from used' true ps)
text_of-inject_from used seen (heading b h3 attrs t ∷ ps) =
    let (id, used') = next_id (slug (strip_tags false t)) used in
    piece_text-woven b h3 (id_attribute id ++ attrs) t (text_of (inject_from used' ps))
    ∙ ap (λ r. before b h3 (id_attribute id ++ attrs) (t ++ behind b h3 r))
        (text_of-inject_from used' seen ps)

-- What injectHeadingIds changes in a document, letter for letter: behind the name of each heading's
-- opening tag it puts the id that the table of contents links to, in the same order, and it writes the
-- closing tag with a capital letter or a small one as the opening tag has it; all else is the document.
pub inject_ids-woven :
    (html : List ℕ)
    → (cs : List Bool) × (html ≡ woven cs (nothings (cut html)) (cut html))
      × (inject_ids html
          ≡ woven
              (capitals (cut html))
              (map id_attribute (map id_of (links_from [] false (cut html))))
              (cut html))
unfolding inject_ids inject_heading_ids cut
inject_ids-woven html =
    let (cs, e) = cut_from-IsWoven 0 html in (cs, e, text_of-inject_from [] false (cut_from 0 html))
