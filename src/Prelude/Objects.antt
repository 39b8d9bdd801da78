-- ===== src/Prelude/Objects.antt =====
-- A JavaScript object literal used as a table: `table[key]` finds an own property, or else one that
-- every object inherits from Object.prototype.
use Prim.Native.String.{String}
use text.Mathlib.Text.{◌==◌}
use mathlib.Core.Bool.{Bool, false, ◌||◌}
use mathlib.Core.List.{List, [], ◌∷◌}
use tabulum.Prelude.Tests.{if◌then◌else◌}

pub data Found {ℓ} (A : Type ℓ) : Type ℓ where
  own : A → Found A
  -- a function, or the prototype itself, and so true as a condition
  inherited : Found A
  undefined : Found A

abbrev pub prototype_names : List String
prototype_names =
    "constructor" ∷ "hasOwnProperty" ∷ "isPrototypeOf" ∷ "propertyIsEnumerable" ∷ "toLocaleString"
    ∷ "toString" ∷ "valueOf" ∷ "__proto__" ∷ "__defineGetter__" ∷ "__defineSetter__"
    ∷ "__lookupGetter__" ∷ "__lookupSetter__" ∷ []

unfoldable pub elem : String → List String → Bool
elem k [] = false
elem k (n ∷ ns) = n == k || elem k ns

unfoldable pub get_own {ℓ} : {A : Type ℓ} → String → List (String × A) → Found A
get_own k [] = if elem k prototype_names then inherited else undefined
get_own k ((j, v) ∷ t) = if j == k then own v else get_own k t
