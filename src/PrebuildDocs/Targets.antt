-- ===== src/PrebuildDocs/Targets.antt =====
-- The table of contents against the ids that the headings have.
use tabulum.Prelude.{suc, true, length, false, ℕ, List, [], ◌∷◌, ◌++◌, ◌≡◌, refl, ap, Bool}
use tabulum.PrebuildDocs.Slugs.{slug}
use tabulum.PrebuildDocs.Ids.{
  toc_html, generate_toc, Level, Piece, between, heading, h2, h3, Link, Used, next_id, strip_tags,
  id_attribute, inject_from, inject_heading_ids, links_from,
}

-- The attributes of the headings.
pub attributes : List Piece → List (List ℕ)
attributes [] = []
attributes (between s ∷ ps) = attributes ps
attributes (heading b l attrs content ∷ ps) = attrs ∷ attributes ps

-- Each heading's old attributes behind the id that a link has.
pub with_ids : List (List ℕ) → List Link → List (List ℕ)
with_ids [] ls = []
with_ids (a ∷ more) [] = a ∷ more
with_ids (a ∷ more) (l ∷ ls) = (id_attribute l.id ++ a) ∷ with_ids more ls

abbrev link : Level → List ℕ → List ℕ → Bool → Link
link l id text divided = record { id = id; level = l; text = text; divided = divided }

links-inject :
    (used : Used) (seen : Bool) (ps : List Piece)
    → (links_from used seen (inject_from used ps) ≡ links_from used seen ps)
      × (attributes (inject_from used ps) ≡ with_ids (attributes ps) (links_from used seen ps))
unfolding links_from inject_from attributes with_ids
links-inject used seen [] = (refl, refl)
links-inject used seen (between s ∷ ps) = links-inject used seen ps
links-inject used seen (heading b h2 attrs content ∷ ps) =
    let next : List ℕ × Used = next_id (slug (strip_tags false content)) used in
    let (links, attributes_after) = links-inject next.1 true ps in
    (
      ap (link h2 next.0 (strip_tags false content) seen ∷◌) links,
      ap ((id_attribute next.0 ++ attrs) ∷◌) attributes_after,
    )
links-inject used seen (heading b h3 attrs content ∷ ps) =
    let next : List ℕ × Used = next_id (slug (strip_tags false content)) used in
    let (links, attributes_after) = links-inject next.1 seen ps in
    (
      ap (link h3 next.0 (strip_tags false content) false ∷◌) links,
      ap ((id_attribute next.0 ++ attrs) ∷◌) attributes_after,
    )

length-links_from :
    (used : Used) (seen : Bool) (ps : List Piece)
    → length (links_from used seen ps) ≡ length (attributes ps)
unfolding links_from attributes
length-links_from used seen [] = refl
length-links_from used seen (between s ∷ ps) = length-links_from used seen ps
length-links_from used seen (heading b h2 attrs content ∷ ps) =
    ap suc (length-links_from (next_id (slug (strip_tags false content)) used).1 true ps)
length-links_from used seen (heading b h3 attrs content ∷ ps) =
    ap suc (length-links_from (next_id (slug (strip_tags false content)) used).1 seen ps)

-- The table of contents has one link per heading, in order, whose target is the id that the heading has
-- got; and it does not matter to the table that the ids have been put in before.
pub links-inject_heading_ids :
    (ps : List Piece)
    → (generate_toc (inject_heading_ids ps) ≡ generate_toc ps)
      × (attributes (inject_heading_ids ps) ≡ with_ids (attributes ps) (links_from [] false ps))
      × (length (links_from [] false ps) ≡ length (attributes ps))
unfolding generate_toc inject_heading_ids
links-inject_heading_ids ps =
    let (links, attributes_after) = links-inject [] false ps in
    (ap toc_html links, attributes_after, length-links_from [] false ps)
