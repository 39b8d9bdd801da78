-- ===== src/PrebuildDocs/Ids.antt =====
-- `injectHeadingIds` and `generateTOC`, on a document that the headings' pattern has cut into pieces.
use tabulum.Prelude.{
  ℕ, suc, String, List, [], ◌∷◌, ◌++◌, Option, none, some, Bool, true, false, ◌||◌, ◌&&◌, ◌==◌,
  if◌then◌else◌, codes, show,
}
use tabulum.Prelude.Objects.{prototype_names}
use tabulum.PrebuildDocs.Slugs.{slug, hyphen}

abbrev pub text_eq : List ℕ → List ℕ → Bool
text_eq [] [] = true
text_eq [] (d ∷ t) = false
text_eq (c ∷ s) [] = false
text_eq (c ∷ s) (d ∷ t) = c == d && text_eq s t

-- A value of `usedIds`: `++` turns what an object inherits into NaN.
pub data Count : Type 0 where
  number : ℕ → Count
  nan : Count

abbrev pub bump : Count → Count
bump (number n) = number (suc n)
bump nan = nan

abbrev pub count_text : Count → List ℕ
count_text (number n) = codes (show n)
count_text nan = codes "NaN"

abbrev pub Used : Type 0
Used = List (List ℕ × Count)

unfoldable pub names : List ℕ → List String → Bool
names k [] = false
names k (n ∷ ns) = text_eq (codes n) k || names k ns

-- `usedIds[baseId]`
unfoldable pub used_count : List ℕ → Used → Option Count
unfolding names
used_count k [] = if names k prototype_names then some nan else none
used_count k ((j, c) ∷ u) = if text_eq j k then some c else used_count k u

-- The id of a heading with that base, and `usedIds` after it.
unfoldable pub next_id : List ℕ → Used → List ℕ × Used
unfolding used_count
next_id base used = elim (used_count base used) [
  | none ↦ (base, (base, number 0) ∷ used)
  | some c ↦ (base ++ hyphen ∷ count_text (bump c), (base, bump c) ∷ used)
]

pub data Level : Type 0 where
  h2 h3 : Level

-- A piece of the document: a match of `<(h2|h3)([^>]*)>(.*?)<\/\1>`, or what stands between. A match
-- tells whether the opening tag has a capital letter, and the level, attributes and content.
pub data Piece : Type 0 where
  between : List ℕ → Piece
  heading : Bool → Level → List ℕ → List ℕ → Piece

-- Whether a `>` follows, after one character at least.
abbrev has_close : List ℕ → Bool
has_close [] = false
has_close (c ∷ s) = c == b'>' || has_close s

abbrev closes : List ℕ → Bool
closes [] = false
closes (c ∷ s) = if c == b'>' then false else has_close s

-- `replace(/<[^>]+>/g, '')`; `inside` tells whether the text begins within a match.
unfoldable pub strip_tags : Bool → List ℕ → List ℕ
strip_tags inside [] = []
strip_tags true (c ∷ s) = if c == b'>' then strip_tags false s else strip_tags true s
strip_tags false (c ∷ s) =
    let within = strip_tags true s in
    if c == b'<' && closes s then within else c ∷ strip_tags false s

-- The text ` id="…"` in front of the attributes.
abbrev pub id_attribute : List ℕ → List ℕ
id_attribute id = codes " id=\"" ++ id ++ codes "\""

unfoldable pub inject_from : Used → List Piece → List Piece
unfolding next_id strip_tags slug
inject_from used [] = []
inject_from used (between s ∷ ps) = between s ∷ inject_from used ps
inject_from used (heading b l attrs content ∷ ps) =
    let (id, used') = next_id (slug (strip_tags false content)) used in
    heading b l (id_attribute id ++ attrs) content ∷ inject_from used' ps

unfoldable pub inject_heading_ids : List Piece → List Piece
unfolding inject_from
inject_heading_ids ps = inject_from [] ps

-- A line of the table of contents; `divided` tells whether a divider comes before it.
pub record Link : Type 0 where
  pub id : List ℕ
  pub level : Level
  pub text : List ℕ
  pub divided : Bool

-- The loop over the headings, with `usedIds` and whether `h2Count` is above 0.
unfoldable pub links_from : Used → Bool → List Piece → List Link
unfolding next_id strip_tags slug
links_from used seen [] = []
links_from used seen (between s ∷ ps) = links_from used seen ps
links_from used seen (heading b h2 attrs content ∷ ps) =
    let (id, used') = next_id (slug (strip_tags false content)) used in
    record { id = id; level = h2; text = strip_tags false content; divided = seen }
    ∷ links_from used' true ps
links_from used seen (heading b h3 attrs content ∷ ps) =
    let (id, used') = next_id (slug (strip_tags false content)) used in
    record { id = id; level = h3; text = strip_tags false content; divided = false }
    ∷ links_from used' seen ps

abbrev divider : List ℕ
divider = codes "<hr class=\"toc-divider\">\n"

abbrev css_class : Level → List ℕ
css_class h2 = []
css_class h3 = codes " class=\"toc-h3\""

unfoldable pub link_html : Link → List ℕ
link_html l =
    (if l.divided then divider else [])
    ++ codes "<a href=\"#"
    ++ l.id
    ++ codes "\" data-target=\""
    ++ l.id
    ++ codes "\""
    ++ css_class l.level
    ++ codes ">"
    ++ l.text
    ++ codes "</a>\n"

unfoldable pub links_html : List Link → List ℕ
unfolding link_html
links_html [] = []
links_html (l ∷ ls) = link_html l ++ links_html ls

unfoldable pub toc_html : List Link → List ℕ
unfolding links_html
toc_html [] = []
toc_html (l ∷ ls) =
    codes "<a href=\"#\" data-target=\"_top\" class=\"active\">Overview</a>\n"
    ++ divider
    ++ links_html (l ∷ ls)

unfoldable pub generate_toc : List Piece → List ℕ
unfolding links_from toc_html
generate_toc ps = toc_html (links_from [] false ps)
