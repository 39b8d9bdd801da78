-- ===== src/PrebuildDocs/Cutting.antt =====
-- The search for the pattern of a heading, `<(h2|h3)([^>]*)>(.*?)<\/\1>` with its flags g and i, and the
-- document that the pieces make.
use tabulum.Prelude.{
  true, zero, length, ◌+◌, some, false, ◌||◌, ◌++◌, ◌&&◌, none, if◌then◌else◌, [], ◌∷◌, ◌==◌, suc,
  codes, Option, List, Bool, ℕ,
}
use tabulum.PrebuildDocs.Ids.{
  Level, h2, h3, Piece, between, heading, inject_heading_ids, generate_toc,
}

-- The name of the element.
abbrev pub tag : Bool → Level → List ℕ
tag false h2 = codes "h2"
tag false h3 = codes "h3"
tag true h2 = codes "H2"
tag true h3 = codes "H3"

-- `<(h2|h3)`: whether the letter is a capital, the level, and what follows.
unfoldable pub opening : List ℕ → Option (Bool × Level × List ℕ)
opening (c ∷ d ∷ e ∷ s) =
    if c == b'<' && (d == b'h' || d == b'H')
    then (if e == b'2'
        then some (d == b'H', h2, s)
        else if e == b'3'
        then some (d == b'H', h3, s)
        else none)
    else none
opening s = none

-- `([^>]*)>`: the text before the first `>`, and what follows it.
unfoldable pub to_bracket : List ℕ → Option (List ℕ × List ℕ)
to_bracket [] = none
to_bracket (c ∷ s) =
    let rest = to_bracket s in
    if c == b'>' then some ([], s) else elim rest [ none ↦ none | some (a, r) ↦ some (c ∷ a, r) ]

-- What `.` does not match.
abbrev pub ends_line : ℕ → Bool
ends_line c = c == 10 || c == 13 || c == 8232 || c == 8233

-- Whether a text begins with the closing tag of the level; a capital letter counts as the small one.
unfoldable pub closes_level : Level → List ℕ → Bool
closes_level l (c ∷ d ∷ e ∷ g ∷ h ∷ s) =
    c == b'<'
    && d == b'/'
    && (e == b'h' || e == b'H')
    && (elim l [ h2 ↦ g == b'2' | h3 ↦ g == b'3' ])
    && h == b'>'
closes_level l s = false

-- `(.*?)<\/\1>`: the text before the first closing tag, all on one line.
unfoldable pub to_closing : Level → List ℕ → Option (List ℕ)
unfolding closes_level
to_closing l [] = none
to_closing l (c ∷ s) =
    let rest = to_closing l s in
    if closes_level l (c ∷ s)
    then some []
    else if ends_line c
    then none
    else elim rest [ none ↦ none | some t ↦ some (c ∷ t) ]

-- The match that begins here.
unfoldable pub match_here : List ℕ → Option (Bool × Level × List ℕ × List ℕ)
unfolding opening to_bracket to_closing
match_here s = elim (opening s) [
  | none ↦ none
  | some (b, l, r) ↦ elim (to_bracket r) [
    | none ↦ none
    | some (attrs, r') ↦ elim (to_closing l r') [
      | none ↦ none
      | some content ↦ some (b, l, attrs, content)
    ]
  ]
]

-- One more character in front of the pieces.
abbrev pub pass_over : ℕ → List Piece → List Piece
pass_over c (between s ∷ ps) = between (c ∷ s) ∷ ps
pass_over c ps = between (c ∷ []) ∷ ps

-- The pieces of a document; `skip` is how many characters of the last match are still to be passed over.
-- A match has nine characters beside its attributes and content.
unfoldable pub cut_from : ℕ → List ℕ → List Piece
unfolding match_here
cut_from skip [] = []
cut_from (suc skip) (c ∷ s) = cut_from skip s
cut_from zero (c ∷ s) =
    let matched = match_here (c ∷ s) in
    let passed = pass_over c (cut_from 0 s) in
    elim matched [
      | none ↦ passed
      | some (b, l, attrs, content) ↦
          heading b l attrs content ∷ cut_from (8 + length attrs + length content) s
    ]

unfoldable pub cut : List ℕ → List Piece
unfolding cut_from
cut html = cut_from 0 html

-- The text of a piece, as the replacement writes it.
unfoldable pub piece_text : Piece → List ℕ
piece_text (between s) = s
piece_text (heading b l attrs content) =
    codes "<" ++ tag b l ++ attrs ++ codes ">" ++ content ++ codes "</" ++ tag b l ++ codes ">"

unfoldable pub text_of : List Piece → List ℕ
unfolding piece_text
text_of [] = []
text_of (p ∷ ps) = piece_text p ++ text_of ps

-- `injectHeadingIds(html)`
unfoldable pub inject_ids : List ℕ → List ℕ
unfolding cut inject_heading_ids text_of
inject_ids html = text_of (inject_heading_ids (cut html))

-- `generateTOC(html)`
unfoldable pub toc_of : List ℕ → List ℕ
unfolding cut generate_toc
toc_of html = generate_toc (cut html)
