-- ===== src/PrebuildDocs/Repeats.antt =====
-- Ids that two headings share.
use tabulum.Prelude.{ℕ, List, [], ◌∷◌, ◌++◌, codes}
use tabulum.PrebuildDocs.Ids.{Link}

-- `b-1`
abbrev pub first_repeat : List ℕ → List ℕ
first_repeat b = b ++ codes "-1"

abbrev pub ids_of : List Link → List (List ℕ)
ids_of [] = []
ids_of (l ∷ ls) = l.id ∷ ids_of ls
