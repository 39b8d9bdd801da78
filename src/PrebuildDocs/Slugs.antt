-- ===== src/PrebuildDocs/Slugs.antt =====
-- The base of a heading's id: its text in lower case, with everything but letters, digits, spaces and
-- hyphens taken out, and hyphens for the spaces.
use tabulum.Prelude.{ℕ, ◌+◌, List, [], ◌∷◌, Bool, false, ◌||◌, ◌&&◌, leb, ◌==◌, if◌then◌else◌}

abbrev pub hyphen : ℕ
hyphen = b'-'

-- `toLowerCase()` of one character, as far as the next replacement lets it through: the Kelvin sign
-- and the dotted capital I become letters of ASCII, and no other character outside of it does.
abbrev pub lower : ℕ → ℕ
lower c =
    if leb b'A' c && leb c b'Z'
    then c + 32
    else if c == 8490
    then b'k'
    else if c == 304
    then b'i'
    else c

-- `\s`
unfoldable pub is_space : ℕ → Bool
is_space c =
    (leb 9 c && leb c 13)
    || c == 32
    || c == 160
    || c == 5760
    || (leb 8192 c && leb c 8202)
    || c == 8232
    || c == 8233
    || c == 8239
    || c == 8287
    || c == 12288
    || c == 65279

-- `[a-z0-9]`
unfoldable pub is_word : ℕ → Bool
is_word c = (leb b'a' c && leb c b'z') || (leb b'0' c && leb c b'9')

unfoldable pub lower_case : List ℕ → List ℕ
lower_case [] = []
lower_case (c ∷ s) = lower c ∷ lower_case s

-- `replace(/[^a-z0-9\s-]/g, '')`
unfoldable pub keep : List ℕ → List ℕ
unfolding is_word is_space
keep [] = []
keep (c ∷ s) = if is_word c || is_space c || c == hyphen then c ∷ keep s else keep s

-- Each run of characters that the test holds of becomes one hyphen; `inside` tells whether the
-- character before was of the run.
unfoldable pub runs : (ℕ → Bool) → Bool → List ℕ → List ℕ
runs test inside [] = []
runs test inside (c ∷ s) =
    let next = runs test (test c) s in
    if test c then (if inside then next else hyphen ∷ next) else c ∷ next

-- `replace(/\s+/g, '-')`, `replace(/-+/g, '-')`
unfoldable pub hyphenate : List ℕ → List ℕ
unfolding runs is_space
hyphenate s = runs is_space false s

unfoldable pub squeeze : List ℕ → List ℕ
unfolding runs
squeeze s = runs (λ c. c == hyphen) false s

-- `replace(/^-|-$/g, '')`
unfoldable pub drop_last : List ℕ → List ℕ
drop_last [] = []
drop_last (c ∷ []) = if c == hyphen then [] else c ∷ []
drop_last (c ∷ d ∷ s) = c ∷ drop_last (d ∷ s)

unfoldable pub drop_first : List ℕ → List ℕ
drop_first [] = []
drop_first (c ∷ s) = if c == hyphen then s else c ∷ s

unfoldable pub slug : List ℕ → List ℕ
unfolding lower_case keep hyphenate squeeze drop_last drop_first
slug s = drop_last (drop_first (squeeze (hyphenate (keep (lower_case s)))))
