-- ===== src/PrebuildDocs/Tests.antt =====
-- Documents of prebuild-docs.js, and its theorems at them.
use tabulum.Prelude.{
  map, ℕ, some, join, ◌++◌, ◌&&◌, truthy, true, Bool, show, String, List, [], ◌∷◌, false, ◌≡◌, refl,
  length, codes,
}
use tabulum.PrebuildDocs.Slugs.{
  is_space, is_word, lower_case, keep, runs, hyphenate, squeeze, drop_first, drop_last, slug,
}
use tabulum.PrebuildDocs.Ids.{
  id_attribute, names, used_count, next_id, Piece, between, heading, h2, h3, strip_tags,
  inject_from, inject_heading_ids, links_from, link_html, links_html, toc_html, generate_toc,
}
use tabulum.PrebuildDocs.Replacing.{
  copy_btn_svg, wrap_pre_blocks, drop_prefix, expand, replace_from, replace, replace_all,
  wrap_tables,
}
use tabulum.PrebuildDocs.Pieces.{woven, nothings, capitals, id_of, inject_ids-woven}
use tabulum.PrebuildDocs.Cutting.{
  opening, to_bracket, closes_level, to_closing, match_here, cut_from, cut, piece_text, text_of,
  inject_ids, toc_of,
}
use tabulum.PrebuildDocs.Pages.{
  set_title, set_canonical, add_og_tags, add_hreflang, set_lang, set_content, set_sidebar, render,
  build_page,
}
use tabulum.PrebuildDocs.Disk.{Disk, read, template_path, main}
use tabulum.PrebuildDocs.Writing.{AllWritten, main-AllWritten}
use tabulum.PrebuildDocs.Dollars.{set_content_dollars}
use tabulum.PrebuildDocs.Docs.{Doc, docs, descriptions, description}
use tabulum.PrebuildDocs.Shape.{IsSlugFrom, slug-IsSlugFrom}
use tabulum.PrebuildDocs.Repeats.{ids_of}
use tabulum.PrebuildDocs.Targets.{attributes, with_ids, links-inject_heading_ids}

pages : Unit {0}
unfolding is_space is_word lower_case keep runs hyphenate squeeze drop_first drop_last slug names
    used_count next_id strip_tags inject_from inject_heading_ids links_from link_html links_html
    toc_html generate_toc show drop_prefix expand replace_from replace replace_all wrap_tables
pages = tt

slugs :
    (slug (codes "Rate limits & quotas") ≡ codes "rate-limits-quotas")
    × (slug (codes "连接智能体") ≡ [])
    × (slug (codes " -- API (v2)") ≡ codes "api-v2")
unfolding pages
slugs = (refl, refl, refl)

stripped : (strip_tags false (codes "<code>a</code> <> c < d") ≡ codes "a <> c < d")
unfolding pages
stripped = refl

abbrev section_of : String → Piece
section_of s = heading false h2 [] (codes s)

abbrev manual : List Piece
manual =
    between (codes "<p>")
    ∷ section_of "Setup"
    ∷ heading false h3 (codes " class=\"x\"") (codes "<em>Keys</em>")
    ∷ section_of "Setup"
    ∷ section_of "Constructor"
    ∷ []

manual_ids :
    ids_of (links_from [] false manual)
    ≡ codes "setup" ∷ codes "keys" ∷ codes "setup-1" ∷ codes "constructor-NaN" ∷ []
unfolding pages
manual_ids = refl

slug-IsSlugFrom_example : IsSlugFrom false (slug (codes " -- API (v2)"))
slug-IsSlugFrom_example = slug-IsSlugFrom (codes " -- API (v2)")

links-inject_heading_ids_example :
    (generate_toc (inject_heading_ids manual) ≡ generate_toc manual)
    × (attributes (inject_heading_ids manual)
        ≡ with_ids (attributes manual) (links_from [] false manual))
    × (length (links_from [] false manual) ≡ length (attributes manual))
links-inject_heading_ids_example = links-inject_heading_ids manual

-- Each document has a description.
abbrev all_described : List (String × Doc) → Bool
all_described [] = true
all_described ((r, d) ∷ ds) = truthy (description r descriptions) && all_described ds

described : all_described docs ≡ true
described = refl

wrapped :
    wrap_tables (codes "<p></p><table><tr></table>")
    ≡ codes "<p></p><div class=\"table-wrap\"><table><tr></table></div>"
unfolding pages
wrapped = refl

replaced : replace (codes "b") (codes "<$&$$>") (codes "abcb") ≡ codes "a<b$>cb"
unfolding pages
replaced = refl

searching : Unit {0}
unfolding pages opening to_bracket closes_level to_closing match_here cut_from cut piece_text
    text_of inject_ids toc_of
searching = tt

-- An unclosed heading, one over two lines, and two that match.
cut_up :
    cut (codes "<h2>a</h3><H3 x>b</h3>\n<h2y>c</H2>")
    ≡ between (codes "<h2>a</h3>")
      ∷ heading true h3 (codes " x") (codes "b")
      ∷ between (codes "\n")
      ∷ heading false h2 (codes "y") (codes "c")
      ∷ []
unfolding searching
cut_up = refl

injected :
    inject_ids (codes "<p><h2>Rate limits</h2>")
    ≡ codes "<p><h2 id=\"rate-limits\">Rate limits</h2>"
unfolding searching
injected = refl

buttons :
    wrap_pre_blocks (codes "<pre><code>x</code></pre>")
    ≡ codes "<div class=\"pre-wrap\"><pre><code>x</code></pre>"
      ++ codes copy_btn_svg
      ++ codes "</div>"
unfolding pages wrap_pre_blocks
buttons = refl

-- A repository with the template and one document.
abbrev repository : Disk
repository = record {
  files =
      (template_path, codes "<p class=\"doc-loading\">Loading documentation...</p>")
      ∷ ("docs/TERMS_OF_SERVICE.md", codes "<p>terms</p>")
      ∷ [];
  folders = "tabulum.org" ∷ [];
}

built :
    build_page
      (λ s. s)
      "/terms"
      (record { file = ""; title = "Terms"; sidebar = false })
      (codes "<p class=\"doc-loading\">Loading documentation...</p>")
      (codes "<h2>A</h2>")
    ≡ codes "<div data-prerendered=\"true\"><h2 id=\"a\">A</h2></div>"
unfolding searching wrap_pre_blocks join set_title set_canonical add_og_tags add_hreflang set_lang
    set_content set_sidebar render build_page
built = refl

main-AllWritten_example :
    (r : Disk × ℕ) × (main (λ s. s) repository ≡ some r)
    × AllWritten
        (λ s. s)
        (codes "<p class=\"doc-loading\">Loading documentation...</p>")
        docs
        repository.files
        0
        r
unfolding read
main-AllWritten_example =
    main-AllWritten (λ s. s) repository
      (codes "<p class=\"doc-loading\">Loading documentation...</p>") refl

set_content_dollars_example :
    set_content
      (codes "a" ++ b'$' ∷ b'$' ∷ codes "b")
      (codes "<p class=\"doc-loading\">Loading documentation...</p>")
    ≡ set_content
        (codes "a" ++ b'$' ∷ codes "b")
        (codes "<p class=\"doc-loading\">Loading documentation...</p>")
set_content_dollars_example =
    set_content_dollars (codes "a") (codes "b")
      (codes "<p class=\"doc-loading\">Loading documentation...</p>") (refl, tt) refl

abbrev mixed : List ℕ
mixed = codes "<p><h2 class=\"a\">Home</H2></p>"

inject_ids-woven_example :
    (cs : List Bool) × (mixed ≡ woven cs (nothings (cut mixed)) (cut mixed))
    × (inject_ids mixed
        ≡ woven
            (capitals (cut mixed))
            (map id_attribute (map id_of (links_from [] false (cut mixed))))
            (cut mixed))
inject_ids-woven_example = inject_ids-woven mixed

mixed_injected : inject_ids mixed ≡ codes "<p><h2 id=\"home\" class=\"a\">Home</h2></p>"
unfolding searching
mixed_injected = refl
