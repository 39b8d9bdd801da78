-- ===== src/Prelude/Thousandths.antt =====
-- A coarse instance of the numbers, to run the drawing code with: integers that count thousandths.
use tabulum.Prelude.Tests.{if◌then◌else◌, leb}
use tabulum.Prelude.Int.{ℤ, pos, negsuc, pos_part, neg_part, sub_ℕ, ltb_ℤ}
use tabulum.Prelude.Floats.{Floats, IsOrdered, IsExact}
use Prim.Native.Nat.{ℕ, zero, suc, ◌+◌, ◌*◌, ◌/◌, ◌≤◌, ◌<◌}
use mathlib.Core.Path.{◌≡◌}
use mathlib.Core.Bool.{not}
use native.Mathlib.Nat.{div-lt_iff_lt-mul, zero-div}
use native.Mathlib.Omega.{arith}

-- The quotient of the sizes, with the sign of the product.
abbrev signed : ℕ → ℤ → ℤ
signed d n = sub_ℕ (pos_part n / d) (neg_part n / d)

abbrev quotient : ℤ → ℤ → ℤ
quotient a (pos b) = sub_ℕ (pos_part a * 1000 / b) (neg_part a * 1000 / b)
quotient a (negsuc b) = sub_ℕ (neg_part a * 1000 / suc b) (pos_part a * 1000 / suc b)

-- The root of `n`, one binary digit after another; `r` is what has been found.
root : ℕ → ℕ → ℕ → ℕ → ℕ
root zero bit r n = r
root (suc left) bit r n =
    root left (bit / 2) (if leb ((r + bit) * (r + bit)) n then r + bit else r) n

unfoldable pub square_root : ℤ → ℤ
unfolding root
square_root a = pos (root 32 2147483648 0 (pos_part a * 1000))

instance abbrev pub thousandths : Floats ℤ
thousandths = record {
  whole = λ n. pos (n * 1000);
  add = λ a b. sub_ℕ (pos_part a + pos_part b) (neg_part a + neg_part b);
  sub = λ a b. sub_ℕ (pos_part a + neg_part b) (neg_part a + pos_part b);
  mul = λ a b. signed 1000 (
      sub_ℕ (pos_part a * pos_part b + neg_part a * neg_part b)
        (pos_part a * neg_part b + neg_part a * pos_part b));
  div = quotient;
  lt = ltb_ℤ;
  le = λ a b. not (ltb_ℤ b a);
  sqrt = square_root;
  cos = λ a. pos 1000;
  sin = λ a. pos 0;
  pi = pos 3141;
  floor = λ a. pos_part a / 1000;
}

pub thousandths-IsOrdered : IsOrdered ℤ
thousandths-IsOrdered = record { lt_irrefl = λ x. ground arith; lt_asymm = λ x y h. ground arith }

quotient_small : (k m : ℕ) → k < m → k * 1000 * 1000 / (m * 1000) < 1000
quotient_small k m h = (div-lt_iff_lt-mul (omega arith)).1 (omega arith)

product_small : (q n : ℕ) → q < 1000 → 0 < n → q * (n * 1000) / 1000 / 1000 < n
product_small q n h l =
    let bound : q * (n * 1000) ≤ 999 * (n * 1000) = grind arith in
    (div-lt_iff_lt-mul (omega arith)).1 ((div-lt_iff_lt-mul (omega arith)).1 (omega arith))

-- What `floor` of such a product computes to.
product_floor :
    (q z n : ℕ)
    → z ≡ 0
    → q < 1000
    → 0 < n
    → pos_part (
          signed 1000 (
            sub_ℕ
              (pos_part (sub_ℕ q z) * (n * 1000) + neg_part (sub_ℕ q z) * 0)
              (pos_part (sub_ℕ q z) * 0 + neg_part (sub_ℕ q z) * (n * 1000))))
        / 1000
      < n
product_floor q z n e h l = rw e (ground (arith, product_small q n h l))

pub thousandths-IsExact : IsExact ℤ
thousandths-IsExact = record {
  sub-whole = λ m n h k. ground arith;
  floor-lt = λ k m n h l p j.
      product_floor (k * 1000 * 1000 / (m * 1000)) (0 / (m * 1000)) n (zero-div (m * 1000))
        (quotient_small k m h) p;
}
