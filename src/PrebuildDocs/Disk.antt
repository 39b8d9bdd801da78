-- ===== src/PrebuildDocs/Disk.antt =====
-- `main` of prebuild-docs.js, over the files that it reads and writes. Paths are from the repository's
-- root.
use tabulum.Prelude.{
  [], suc, ◌||◌, some, str_eq, none, false, ◌∷◌, if◌then◌else◌, Option, Bool, ◌<>◌, List, ℕ, String,
}
use tabulum.PrebuildDocs.Docs.{Doc, docs, route_dir}
use tabulum.PrebuildDocs.Pages.{build_page}

-- The files with their contents, and the directories that have been made or were there.
pub record Disk : Type 0 where
  pub files : List (String × List ℕ)
  pub folders : List String

-- `fs.readFileSync` where `fs.existsSync`
unfoldable pub read : String → List (String × List ℕ) → Option (List ℕ)
read p [] = none
read p ((q, s) ∷ fs) = if str_eq q p then some s else read p fs

-- `fs.writeFileSync`
unfoldable pub write : String → List ℕ → List (String × List ℕ) → List (String × List ℕ)
write p s [] = (p, s) ∷ []
write p s ((q, t) ∷ fs) = if str_eq q p then (q, s) ∷ fs else (q, t) ∷ write p s fs

unfoldable pub has_folder : String → List String → Bool
has_folder p [] = false
has_folder p (q ∷ qs) = str_eq q p || has_folder p qs

-- `if (!fs.existsSync(outDir)) fs.mkdirSync(outDir)`
unfoldable pub ensure_folder : String → List String → List String
unfolding has_folder
ensure_folder p qs = if has_folder p qs then qs else p ∷ qs

abbrev pub out_dir : String → String
out_dir route = "tabulum.org/" <> route_dir route

abbrev pub out_file : String → String
out_file route = out_dir route <> "/index.html"

abbrev pub template_path : String
template_path = "tabulum.org/doc.html"

-- `if (!page)`: null, or an empty text.
unfoldable pub page_of :
    (List ℕ → List ℕ) → List ℕ → String → Doc → List (String × List ℕ) → Option (List ℕ)
unfolding build_page read
page_of parse template route d files = elim (read d.file files) [
  | none ↦ none
  | some markdown ↦
      let page = build_page parse route d template markdown in
      elim page [ [] ↦ none | c ∷ s ↦ some (c ∷ s) ]
]

unfoldable pub write_page : String → List ℕ → Disk → Disk
unfolding write ensure_folder
write_page route page disk = record {
  files = write (out_file route) page disk.files;
  folders = ensure_folder (out_dir route) disk.folders;
}

-- The loop over the documents, with `count`.
unfoldable pub build_all : (List ℕ → List ℕ) → List ℕ → List (String × Doc) → Disk → ℕ → Disk × ℕ
unfolding page_of write_page
build_all parse template [] disk count = (disk, count)
build_all parse template ((route, d) ∷ ds) disk count =
    elim (page_of parse template route d disk.files) [
      | none ↦ build_all parse template ds disk count
      | some page ↦ build_all parse template ds (write_page route page disk) (suc count)
    ]

-- Without a template, reading it throws before anything is written.
unfoldable pub main : (List ℕ → List ℕ) → Disk → Option (Disk × ℕ)
unfolding build_all read
main parse disk = elim (read template_path disk.files) [
  | none ↦ none
  | some template ↦ some (build_all parse template docs disk 0)
]
