-- ===== src/NetworkGraph/Channels.antt =====
-- The channels and digits of the hexadecimal colours.
use tabulum.Prelude.{
  zero, inr, inl, ◌==◌, Bool-cases, suc, min, ◌<>◌, max, ℕ, ◌+◌, ◌/◌, ◌%◌, ◌≤◌, ◌<◌, String, ◌≡◌,
  refl, arith, length, codes,
}
use text.Mathlib.TextLemmas.{nil-append, cons-append}
use tabulum.NetworkGraph.Hex.{slope, sector, channel, hex_digit, hex_byte, hue_to_hex}

slope-le : (h : ℕ) → slope h ≤ 60000
unfolding slope
slope-le h = ground arith

-- A channel of the colour is between 126 and 206, so that it has two hexadecimal digits.
channel_bounds : (t : ℕ) → t ≤ 60000 → (126 ≤ channel t) × (channel t ≤ 206)
unfolding channel
channel_bounds t h = (omega arith, omega arith)

pub sector_bounds :
    (h : ℕ) → ((sector h).r ≤ 60000) × ((sector h).g ≤ 60000) × ((sector h).b ≤ 60000)
unfolding sector
sector_bounds h = ground (arith, slope-le h)

-- The greatest and the least part of a sector: every hue has the same saturation and lightness.
sector_spread :
    (h : ℕ)
    → (max (sector h).r (max (sector h).g (sector h).b) ≡ 60000)
      × (min (sector h).r (min (sector h).g (sector h).b) ≡ 0)
unfolding sector
sector_spread h = ground (arith, slope-le h)

-- A test that holds of each number below a bound, one after the other.
AllBelow : (ℕ → ℕ) → ℕ → Type 0
AllBelow f zero = Unit
AllBelow f (suc n) = (f n ≡ 1) × AllBelow f n

all_below : (f : ℕ → ℕ) → (n k : ℕ) → AllBelow f n → k < n → f k ≡ 1
unfolding AllBelow
all_below f zero k a h = absurd (omega arith)
all_below f (suc n) k a h = elim (Bool-cases (k == n)) [
  | inl same ↦ let e : k ≡ n = grind (arith, same) in rw e (a.0)
  | inr other ↦ all_below f n k a.1 (grind (arith, other))
]

hex_digit_one : (n : ℕ) → n < 16 → length (codes (hex_digit n)) ≡ 1
unfolding hex_digit AllBelow
hex_digit_one n h =
    all_below (λ k. length (codes (hex_digit k))) 16 n
      (
        refl,
        (
          refl,
          (
            refl,
            (
              refl,
              (
                refl,
                (
                  refl,
                  (
                    refl,
                    (refl, (refl, (refl, (refl, (refl, (refl, (refl, (refl, (refl, tt))))))))),
                  ),
                ),
              ),
            ),
          ),
        ),
      )
      h

length-codes_append : (s t : String) → length (codes (s <> t)) ≡ length (codes s) + length (codes t)
length-codes_append String.[] t = rw nil-append (omega arith)
length-codes_append (String.◌∷◌ c s) t = rw cons-append (omega (arith, length-codes_append s t))

hex_byte_two : (n : ℕ) → n < 256 → length (codes (hex_byte n)) ≡ 2
unfolding hex_byte
hex_byte_two n h =
    rw (length-codes_append (hex_digit (n / 16)) (hex_digit (n % 16)))
      (rw (hex_digit_one (n / 16) (omega arith)) (rw (hex_digit_one (n % 16) (omega arith)) refl))

channel_two : (t : ℕ) → t ≤ 60000 → length (codes (hex_byte (channel t))) ≡ 2
channel_two t h = hex_byte_two (channel t) (grind (arith, channel_bounds t h))

length-three :
    (a b c : String)
    → length (codes a) ≡ 2
    → length (codes b) ≡ 2
    → length (codes c) ≡ 2
    → length (codes ("#" <> a <> b <> c)) ≡ 7
length-three a b c ha hb hc = grind (
  arith,
  length-codes_append "#" (a <> b <> c),
  length-codes_append a (b <> c),
  length-codes_append b c,
)

-- Every hue gives a `#` and six digits.
length-hue_to_hex : (h : ℕ) → length (codes (hue_to_hex h)) ≡ 7
unfolding hue_to_hex
length-hue_to_hex h =
    length-three (hex_byte (channel (sector h).r)) (hex_byte (channel (sector h).g))
      (hex_byte (channel (sector h).b)) (channel_two (sector h).r ((sector_bounds h).0))
      (channel_two (sector h).g ((sector_bounds h).1))
      (channel_two (sector h).b ((sector_bounds h).2))

channel_ends : (channel 60000 ≡ 206) × (channel 0 ≡ 126)
unfolding channel
channel_ends = (refl, refl)

channel-max : (s t : ℕ) → max (channel s) (channel t) ≡ channel (max s t)
unfolding channel
channel-max s t = omega arith

channel-min : (s t : ℕ) → min (channel s) (channel t) ≡ channel (min s t)
unfolding channel
channel-min s t = omega arith

-- Every colour has the same brightest channel, 206, and the same darkest one, 126.
pub hue_to_hex_spread :
    (h : ℕ)
    → (max (channel (sector h).r) (max (channel (sector h).g) (channel (sector h).b)) ≡ 206)
      × (min (channel (sector h).r) (min (channel (sector h).g) (channel (sector h).b)) ≡ 126)
hue_to_hex_spread h =
    let x = (sector h).r in
    let y = (sector h).g in
    let z = (sector h).b in
    (
      rw (channel-max y z)
          (rw (channel-max x (max y z)) (rw ((sector_spread h).0) (channel_ends.0))),
      rw (channel-min y z)
          (rw (channel-min x (min y z)) (rw ((sector_spread h).1) (channel_ends.1))),
    )
