-- ===== src/PrebuildDocs/Writing.antt =====
-- What the files of the pages hold after a run of prebuild-docs.js.
use tabulum.Prelude.{
  ap, subst, ℕ, suc, ◌+◌, String, List, [], ◌∷◌, Option, none, some, Bool, true, false, not, ◌&&◌,
  ◌≡◌, refl, sym, ◌∙◌, arith, All, str_eq, eq_iff, Option-cases, inl, inr,
}
use tabulum.PrebuildDocs.Docs.{Doc, docs}
use tabulum.PrebuildDocs.Disk.{
  Disk, read, write, out_file, template_path, page_of, write_page, build_all, main,
}

read-write :
    (p : String) (s : List ℕ) (fs : List (String × List ℕ)) → read p (write p s fs) ≡ some s
unfolding read write
read-write p s [] = ground (arith, eq_iff p p)
read-write p s ((q, t) ∷ fs) = ground (arith, read-write p s fs)

read-write_other :
    (p q : String) (s : List ℕ) (fs : List (String × List ℕ))
    → str_eq p q ≡ false
    → read q (write p s fs) ≡ read q fs
unfolding read write
read-write_other p q s [] h = ground arith
read-write_other p q s ((r, t) ∷ fs) h = ground (arith, eq_iff r p, read-write_other p q s fs h)

-- A page in front of others overwrites neither their documents nor their pages.
unfoldable clear_of : String → List (String × Doc) → Bool
clear_of p [] = true
clear_of p ((route, d) ∷ ds) =
    not (str_eq p d.file) && not (str_eq p (out_file route)) && clear_of p ds

unfoldable apart : List (String × Doc) → Bool
unfolding clear_of
apart [] = true
apart ((route, d) ∷ ds) = clear_of (out_file route) ds && apart ds

docs-apart : apart docs ≡ true
unfolding apart
docs-apart = refl

-- What being clear of documents comes to for the first and for the others.
module _ (p route : String) (d : Doc) (ds : List (String × Doc))
    (h : clear_of p ((route, d) ∷ ds) ≡ true) where
  clear_rest : clear_of p ds ≡ true
  unfolding clear_of
  clear_rest = ground arith

  clear_file : str_eq p d.file ≡ false
  unfolding clear_of
  clear_file = ground arith

  clear_page : str_eq p (out_file route) ≡ false
  unfolding clear_of
  clear_page = ground arith

  clear_out : str_eq (out_file route) p ≡ false
  clear_out = ground (arith, eq_iff (out_file route) p, eq_iff p (out_file route), clear_page)

module _ (route : String) (d : Doc) (ds : List (String × Doc))
    (h : apart ((route, d) ∷ ds) ≡ true) where
  apart_rest : apart ds ≡ true
  unfolding apart
  apart_rest = ground arith

  apart_clear : clear_of (out_file route) ds ≡ true
  unfolding apart
  apart_clear = ground arith

abbrev or_old : Option (List ℕ) → Option (List ℕ) → Option (List ℕ)
or_old none old = old
or_old (some page) old = some page

All-trans :
    (f g h : String × Doc → Option (List ℕ)) (ds : List (String × Doc))
    → All (λ e. f e ≡ g e) ds
    → All (λ e. g e ≡ h e) ds
    → All (λ e. f e ≡ h e) ds
All-trans f g h [] p q = tt
All-trans f g h (d ∷ ds) p q = (p.0 ∙ q.0, All-trans f g h ds p.1 q.1)

module _ (parse : List ℕ → List ℕ) (template : List ℕ) where
  -- What the file of a page is to hold: the page, if there is one, and else what it has held.
  abbrev pub wanted : String → Doc → List (String × List ℕ) → Option (List ℕ)
  wanted route d files = or_old (page_of parse template route d files) (read (out_file route) files)

  abbrev pub one : Option (List ℕ) → ℕ
  one none = 0
  one (some page) = 1

  -- How many documents have a page.
  abbrev pub pages_made : List (String × Doc) → List (String × List ℕ) → ℕ
  pages_made [] files = 0
  pages_made ((route, d) ∷ ds) files =
      one (page_of parse template route d files) + pages_made ds files

  build_all-keeps :
      (q : String) (ds : List (String × Doc)) (disk : Disk) (n : ℕ)
      → clear_of q ds ≡ true
      → read q (build_all parse template ds disk n).0.files ≡ read q disk.files
  unfolding build_all write_page clear_of
  build_all-keeps q [] disk n h = refl
  build_all-keeps q ((route, d) ∷ ds) disk n h =
      elim (Option-cases (page_of parse template route d disk.files)) [
        | inl e ↦ rw (e, build_all) (build_all-keeps q ds disk n (clear_rest q route d ds h))
        | inr (page, e) ↦
            rw (e, build_all)
              (build_all-keeps q ds (write_page route page disk) (suc n) (clear_rest q route d ds h)
                ∙ read-write_other (out_file route) q page disk.files (clear_out q route d ds h))
      ]

  page_of-write :
      (p : String) (s : List ℕ) (route : String) (d : Doc) (fs : List (String × List ℕ))
      → str_eq p d.file ≡ false
      → page_of parse template route d (write p s fs) ≡ page_of parse template route d fs
  unfolding page_of
  page_of-write p s route d fs h = rw (read-write_other p d.file s fs h, page_of) refl

  -- A page that is written changes nothing for the documents that it is clear of.
  wanted-write :
      (p : String) (s : List ℕ) (ds : List (String × Doc)) (fs : List (String × List ℕ))
      → clear_of p ds ≡ true
      → All (λ e. wanted e.0 e.1 (write p s fs) ≡ wanted e.0 e.1 fs) ds
        × (pages_made ds (write p s fs) ≡ pages_made ds fs)
  wanted-write p s [] fs h = (tt, refl)
  wanted-write p s ((route, d) ∷ ds) fs h =
      let rest = wanted-write p s ds fs (clear_rest p route d ds h) in
      (
        (
          ap (λ o. or_old o (read (out_file route) (write p s fs)))
                (page_of-write p s route d fs (clear_file p route d ds h))
              ∙ ap (or_old (page_of parse template route d fs))
                  (read-write_other p (out_file route) s fs (clear_page p route d ds h)),
          rest.0,
        ),
        omega (arith, ap one (page_of-write p s route d fs (clear_file p route d ds h)), rest.1),
      )

  -- Each file of a page holds what it is to hold, and the pages have been counted.
  abbrev pub AllWritten : List (String × Doc) → List (String × List ℕ) → ℕ → Disk × ℕ → Type 0
  AllWritten ds fs n r =
      All (λ e. read (out_file e.0) r.0.files ≡ wanted e.0 e.1 fs) ds × (r.1 ≡ n + pages_made ds fs)

  -- The two ways of one round of the loop.
  build_all-none :
      (route : String) (d : Doc) (ds : List (String × Doc)) (disk : Disk) (n : ℕ)
      → page_of parse template route d disk.files ≡ none
      → build_all parse template ((route, d) ∷ ds) disk n ≡ build_all parse template ds disk n
  unfolding build_all
  build_all-none route d ds disk n e = rw (e, build_all) refl

  build_all-some :
      (route : String) (d : Doc) (ds : List (String × Doc)) (disk : Disk) (n : ℕ) (page : List ℕ)
      → page_of parse template route d disk.files ≡ some page
      → build_all parse template ((route, d) ∷ ds) disk n
        ≡ build_all parse template ds (write_page route page disk) (suc n)
  unfolding build_all
  build_all-some route d ds disk n page e = rw (e, build_all) refl

  skipped-AllWritten :
      (route : String) (d : Doc) (ds : List (String × Doc)) (disk : Disk) (n : ℕ)
      → apart ((route, d) ∷ ds) ≡ true
      → page_of parse template route d disk.files ≡ none
      → AllWritten ds disk.files n (build_all parse template ds disk n)
      → AllWritten ((route, d) ∷ ds) disk.files n (build_all parse template ds disk n)
  skipped-AllWritten route d ds disk n h e rest = (
    (
      build_all-keeps (out_file route) ds disk n (apart_clear route d ds h)
          ∙ sym (ap (λ o. or_old o (read (out_file route) disk.files)) e),
      rest.0,
    ),
    omega (arith, ap one e, rest.1),
  )

  made-AllWritten :
      (route : String) (d : Doc) (ds : List (String × Doc)) (disk : Disk) (n : ℕ) (page : List ℕ)
      → apart ((route, d) ∷ ds) ≡ true
      → page_of parse template route d disk.files ≡ some page
      → AllWritten ds
          (write_page route page disk).files
          (suc n)
          (build_all parse template ds (write_page route page disk) (suc n))
      → AllWritten
          ((route, d) ∷ ds)
          disk.files
          n
          (build_all parse template ds (write_page route page disk) (suc n))
  unfolding write_page
  made-AllWritten route d ds disk n page h e rest =
      let c = apart_clear route d ds h in
      let disk' = write_page route page disk in
      let same = wanted-write (out_file route) page ds disk.files c in
      (
        (
          build_all-keeps (out_file route) ds disk' (suc n) c
              ∙ read-write (out_file route) page disk.files
              ∙ sym (ap (λ o. or_old o (read (out_file route) disk.files)) e),
          All-trans (λ d'. read (out_file d'.0) (build_all parse template ds disk' (suc n)).0.files)
              (λ d'. wanted d'.0 d'.1 disk'.files) (λ d'. wanted d'.0 d'.1 disk.files) ds rest.0
              same.0,
        ),
        omega (arith, ap one e, rest.1, same.1),
      )

  build_all-AllWritten :
      (ds : List (String × Doc)) (disk : Disk) (n : ℕ)
      → apart ds ≡ true
      → AllWritten ds disk.files n (build_all parse template ds disk n)
  unfolding build_all
  build_all-AllWritten [] disk n h = (tt, omega arith)
  build_all-AllWritten ((route, d) ∷ ds) disk n h =
      let r = apart_rest route d ds h in
      elim (Option-cases (page_of parse template route d disk.files)) [
        | inl e ↦
            subst (AllWritten ((route, d) ∷ ds) disk.files n)
              (sym (build_all-none route d ds disk n e))
              (skipped-AllWritten route d ds disk n h e (build_all-AllWritten ds disk n r))
        | inr (page, e) ↦
            subst (AllWritten ((route, d) ∷ ds) disk.files n)
              (sym (build_all-some route d ds disk n page e))
              (made-AllWritten route d ds disk n page h e
                (build_all-AllWritten ds (write_page route page disk) (suc n) r))
      ]

-- With a template, a run ends normally: the file of every page that DOCS lists holds the page made from
-- its document as it was before the run, or, where the document is missing or its page is empty, what
-- it has held before; and the count is the number of the pages made. No page is made from a file that
-- the same run has written.
pub main-AllWritten :
    (parse : List ℕ → List ℕ) (disk : Disk) (template : List ℕ)
    → read template_path disk.files ≡ some template
    → (r : Disk × ℕ) × (main parse disk ≡ some r) × AllWritten parse template docs disk.files 0 r
unfolding main
main-AllWritten parse disk template e = (
  build_all parse template docs disk 0,
  rw (e, main) refl,
  build_all-AllWritten parse template docs disk 0 docs-apart,
)
