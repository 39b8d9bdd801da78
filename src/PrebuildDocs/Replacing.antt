-- ===== src/PrebuildDocs/Replacing.antt =====
-- `String.replace` as buildPage and wrapTables call it.
use tabulum.Prelude.{
  String, ℕ, zero, suc, ◌-◌, List, [], ◌∷◌, ◌++◌, Option, none, some, ◌==◌, if◌then◌else◌, codes,
  length,
}

-- What stands behind `p`, if the text begins with it.
unfoldable pub drop_prefix : List ℕ → List ℕ → Option (List ℕ)
drop_prefix [] s = some s
drop_prefix (c ∷ p) [] = none
drop_prefix (c ∷ p) (d ∷ s) = if c == d then drop_prefix p s else none

-- The replacement with its patterns written out: a dollar sign followed by another stands for one, by
-- `&` for what has been matched, by a backquote for what comes before and by an apostrophe for what
-- comes after. The pattern has no groups, so that any other dollar sign stands for itself.
unfoldable pub expand : List ℕ → List ℕ → List ℕ → List ℕ → List ℕ
expand before matched after [] = []
expand before matched after (c ∷ []) = c ∷ []
expand before matched after (c ∷ d ∷ r) =
    let rest = expand before matched after r in
    let kept = c ∷ expand before matched after (d ∷ r) in
    if c == b'$'
    then (if d == b'$'
        then b'$' ∷ rest
        else if d == b'&'
        then matched ++ rest
        else if d == 96
        then before ++ rest
        else if d == 39
        then after ++ rest
        else kept)
    else kept

-- `s.replace(p, r)`: the first occurrence. `before` is what has been passed over.
unfoldable pub replace_from : List ℕ → List ℕ → List ℕ → List ℕ → List ℕ
unfolding drop_prefix expand
replace_from p r before [] = elim (drop_prefix p []) [
  | none ↦ []
  | some after ↦ expand before p after r ++ after
]
replace_from p r before (c ∷ s) =
    let later = c ∷ replace_from p r (before ++ c ∷ []) s in
    elim (drop_prefix p (c ∷ s)) [ none ↦ later | some after ↦ expand before p after r ++ after ]

unfoldable pub replace : List ℕ → List ℕ → List ℕ → List ℕ
unfolding replace_from
replace p r s = replace_from p r [] s

-- `s.replace(/p/g, r)`, where `r` has no dollar sign: every occurrence, from the left. `skip` is how
-- many characters of the last one are still to be passed over.
unfoldable pub replace_all : List ℕ → List ℕ → ℕ → List ℕ → List ℕ
unfolding drop_prefix
replace_all p r skip [] = []
replace_all p r (suc skip) (c ∷ s) = replace_all p r skip s
replace_all p r zero (c ∷ s) =
    let matched = r ++ replace_all p r (length p - 1) s in
    let passed = c ∷ replace_all p r 0 s in
    elim (drop_prefix p (c ∷ s)) [ none ↦ passed | some after ↦ matched ]

unfoldable pub wrap_tables : List ℕ → List ℕ
unfolding replace_all
wrap_tables html =
    replace_all (codes "</table>") (codes "</table></div>") 0
      (replace_all (codes "<table>") (codes "<div class=\"table-wrap\"><table>") 0 html)

-- The button behind a block of code.
abbrev pub copy_btn_svg : String
copy_btn_svg =
    "<button class=\"copy-btn\" aria-label=\"Copy code\"><svg width=\"16\" height=\"16\" viewBox=\"0 0 24 24\" fill=\"none\" stroke=\"currentColor\" stroke-width=\"2\" stroke-linecap=\"round\" stroke-linejoin=\"round\"><rect x=\"9\" y=\"9\" width=\"13\" height=\"13\" rx=\"2\"/><path d=\"M5 15H4a2 2 0 0 1-2-2V4a2 2 0 0 1 2-2h9a2 2 0 0 1 2 2v1\"/></svg></button>"

unfoldable pub wrap_pre_blocks : List ℕ → List ℕ
unfolding replace_all
wrap_pre_blocks html =
    replace_all (codes "</code></pre>")
      (codes "</code></pre>" ++ codes copy_btn_svg ++ codes "</div>") 0
      (replace_all (codes "<pre><code") (codes "<div class=\"pre-wrap\"><pre><code") 0 html)
