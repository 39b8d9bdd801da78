-- ===== src/Prelude/Texts.antt =====
-- Texts compared whole, and JavaScript's way to read one as a condition.
use Prim.Native.Nat.{ℕ, zero, suc, ◌/◌, ◌%◌}
use tabulum.Prelude.Tests.{ltb, if◌then◌else◌}
use mathlib.Core.Path.{◌≡◌, refl}
use Prim.Native.Char.{code}
use Prim.Native.String
use Prim.Native.String.{String}
use text.Mathlib.Text.{◌==◌}
use mathlib.Core.Bool.{Bool, true, false, not}
use mathlib.Core.Option.{Option, none, some}
use mathlib.Core.List.{List, [], ◌∷◌}

-- `s === t` on texts
abbrev pub str_eq : String → String → Bool
str_eq s t = s == t

-- The code points of a text.
abbrev pub codes : String → List ℕ
codes String.[] = []
codes (String.◌∷◌ c s) = code c ∷ codes s

-- Text concatenation.
infixr 66 ◌<>◌
abbrev pub ◌<>◌ : String → String → String
s <> t = String.◌++◌ s t

-- `if (s)`: a text counts as true unless it is empty.
abbrev pub truthy : String → Bool
truthy s = not (s == "")

-- `s || undefined`
abbrev pub non_empty : String → Option String
non_empty s = elim (truthy s) [ true ↦ some s | false ↦ none ]

-- `xs.join(sep)`
unfoldable pub join : String → List String → String
join sep [] = ""
join sep (x ∷ []) = x
join sep (x ∷ y ∷ r) = x <> sep <> join sep (y ∷ r)

digit : ℕ → String
digit zero = "0"
digit (suc zero) = "1"
digit (suc (suc zero)) = "2"
digit (suc (suc (suc zero))) = "3"
digit (suc (suc (suc (suc zero)))) = "4"
digit (suc (suc (suc (suc (suc zero))))) = "5"
digit (suc (suc (suc (suc (suc (suc zero)))))) = "6"
digit (suc (suc (suc (suc (suc (suc (suc zero))))))) = "7"
digit (suc (suc (suc (suc (suc (suc (suc (suc zero)))))))) = "8"
digit _ = "9"

-- The decimal digits of `n` in front of `acc`; the first argument bounds their number.
show_from : ℕ → ℕ → String → String
show_from zero n acc = acc
show_from (suc f) n acc =
    let rest = show_from f (n / 10) (digit (n % 10) <> acc) in
    if ltb n 10 then digit (n % 10) <> acc else rest

-- `String(n)`
unfoldable pub show : ℕ → String
unfolding digit show_from
show n = show_from (suc n) n ""

show_120 : show 120 ≡ "120"
unfolding show
show_120 = refl
