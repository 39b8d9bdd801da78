-- ===== src/PrebuildDocs/Pages.antt =====
-- `buildPage` of prebuild-docs.js. The library marked is the parameter `parse`.
use tabulum.Prelude.{◌||◌, ◌++◌, str_eq, if◌then◌else◌, codes, join, List, ℕ, String}
use tabulum.PrebuildDocs.Docs.{Doc, canonical_url, og_tags}
use tabulum.PrebuildDocs.Replacing.{replace, wrap_tables, wrap_pre_blocks}
use tabulum.PrebuildDocs.Cutting.{inject_ids, toc_of}

-- `<link rel="canonical" href="…">`
abbrev pub canonical_link : String → List ℕ
canonical_link url = codes "<link rel=\"canonical\" href=\"" ++ codes url ++ codes "\">"

unfoldable pub set_title : Doc → List ℕ → List ℕ
unfolding replace
set_title d page =
    replace (codes "<title>Tabulum — Documentation</title>")
      (codes "<title>" ++ codes d.title ++ codes "</title>") page

unfoldable pub set_canonical : String → List ℕ → List ℕ
unfolding replace
set_canonical route page = replace (canonical_link "") (canonical_link (canonical_url route)) page

unfoldable pub add_og_tags : String → Doc → List ℕ → List ℕ
unfolding replace join
add_og_tags route d page =
    let site = codes "<meta property=\"og:site_name\" content=\"Tabulum\">" in
    replace site (site ++ codes "\n" ++ codes (join "\n" (og_tags route d))) page

abbrev pub hreflang_tags : List ℕ
hreflang_tags =
    codes "<link rel=\"alternate\" hreflang=\"en\" href=\"https://tabulum.org/connect\">\n"
    ++ codes "<link rel=\"alternate\" hreflang=\"zh\" href=\"https://tabulum.org/connect-zh\">"

-- Only the pages about connecting an agent have a translation.
unfoldable pub add_hreflang : String → List ℕ → List ℕ
unfolding replace
add_hreflang route page =
    let link = canonical_link (canonical_url route) in
    if str_eq route "/connect" || str_eq route "/connect-zh"
    then replace link (link ++ codes "\n" ++ hreflang_tags) page
    else page

unfoldable pub set_lang : String → List ℕ → List ℕ
unfolding replace
set_lang route page =
    if str_eq route "/connect-zh"
    then replace (codes "<html lang=\"en\">") (codes "<html lang=\"zh\">") page
    else page

unfoldable pub set_content : List ℕ → List ℕ → List ℕ
unfolding replace
set_content rendered page =
    replace (codes "<p class=\"doc-loading\">Loading documentation...</p>")
      (codes "<div data-prerendered=\"true\">" ++ rendered ++ codes "</div>") page

unfoldable pub set_sidebar : Doc → List ℕ → List ℕ → List ℕ
unfolding replace toc_of
set_sidebar d rendered page =
    if d.sidebar
    then replace (codes "id=\"doc-layout\" class=\"doc-layout\"")
        (codes "id=\"doc-layout\" class=\"doc-layout has-sidebar\"")
        (replace (codes "<nav id=\"doc-toc\" class=\"doc-sidebar-nav\"></nav>")
          (codes "<nav id=\"doc-toc\" class=\"doc-sidebar-nav\">"
            ++ toc_of rendered
            ++ codes "</nav>")
          (replace (codes "<aside id=\"doc-sidebar\" class=\"doc-sidebar\">")
            (codes "<aside id=\"doc-sidebar\" class=\"doc-sidebar visible\">") page))
    else page

-- The document as marked renders it, with ids, wrapped tables and blocks of code.
unfoldable pub render : (List ℕ → List ℕ) → List ℕ → List ℕ
unfolding inject_ids wrap_tables wrap_pre_blocks
render parse markdown = wrap_pre_blocks (wrap_tables (inject_ids (parse markdown)))

-- `buildPage` behind its test that the file of the document, `markdown`, is there.
unfoldable pub build_page : (List ℕ → List ℕ) → String → Doc → List ℕ → List ℕ → List ℕ
unfolding render set_title set_canonical add_og_tags add_hreflang set_lang set_content set_sidebar
build_page parse route d template markdown =
    let rendered = render parse markdown in
    set_sidebar d rendered (
      set_content rendered (
        set_lang route
          (add_hreflang route (add_og_tags route d (set_canonical route (set_title d template))))))
