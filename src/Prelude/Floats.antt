-- ===== src/Prelude/Floats.antt =====
-- What the drawing code does with fractional numbers, as an interface: a JavaScript number where it is
-- not a count. A decimal such as 0.55 is `dec 55 100`, since the division of two exact integers rounds
-- as the literal does.
use tabulum.Prelude.Tests.{if◌then◌else◌}
use Prim.Native.Nat.{ℕ, ◌-◌, ◌≤◌, ◌<◌}
use mathlib.Core.Path.{◌≡◌}
use mathlib.Core.Bool.{Bool, true, false}

pub record Floats (R : Type 0) : Type 0 where
  -- an integer
  pub whole : ℕ → R
  pub add : R → R → R
  pub sub : R → R → R
  pub mul : R → R → R
  pub div : R → R → R
  pub lt : R → R → Bool
  pub le : R → R → Bool
  -- `Math.sqrt`, `Math.cos`, `Math.sin`, `Math.PI`
  pub sqrt : R → R
  pub cos : R → R
  pub sin : R → R
  pub pi : R
  -- `Math.floor`, used as an index
  pub floor : R → ℕ

module _ {R : Type 0} ⦃f : Floats R⦄ where
  infixl 65 ◌⊕◌ ◌⊖◌
  infixl 70 ◌⊗◌ ◌⊘◌
  abbrev pub ◌⊕◌ : R → R → R
  x ⊕ y = f.add x y

  abbrev pub ◌⊖◌ : R → R → R
  x ⊖ y = f.sub x y

  abbrev pub ◌⊗◌ : R → R → R
  x ⊗ y = f.mul x y

  abbrev pub ◌⊘◌ : R → R → R
  x ⊘ y = f.div x y

  abbrev pub less : R → R → Bool
  less x y = f.lt x y

  abbrev pub whole : ℕ → R
  whole n = f.whole n

  abbrev pub dec : ℕ → ℕ → R
  dec n d = f.whole n ⊘ f.whole d

  abbrev pub negative : R → R
  negative x = f.whole 0 ⊖ x

  -- `Math.min(x, y)` and `Math.max(x, y)` of numbers that are not NaN
  abbrev pub least : R → R → R
  least x y = if f.lt y x then y else x

  abbrev pub greatest : R → R → R
  greatest x y = if f.lt x y then y else x

-- The comparison of two numbers, which holds with NaN and the infinities too.
pub record IsOrdered (R : Type 0) ⦃f : Floats R⦄ : Type 0 where
  pub lt_irrefl : (x : R) → f.lt x x ≡ false
  pub lt_asymm : (x y : R) → f.lt x y ≡ true → f.lt y x ≡ false

-- Small integers are exact, and a fraction below 1 of a small number is below it.
pub record IsExact (R : Type 0) ⦃f : Floats R⦄ : Type 0 where
  pub sub-whole :
      (m n : ℕ) → n ≤ m → m < 2147483648 → f.sub (f.whole m) (f.whole n) ≡ f.whole (m - n)
  pub floor-lt :
      (k m n : ℕ)
      → k < m
      → m < 2147483648
      → 0 < n
      → n < 65536
      → f.floor (f.mul (f.div (f.whole k) (f.whole m)) (f.whole n)) < n
