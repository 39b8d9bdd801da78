-- ===== src/NetworkGraph/Hex.antt =====
-- `hueToHex`: a hue as a colour of saturation 0.45 and lightness 0.65, in hexadecimal. A channel is
-- kept as the number 0 to 60000 by which it stands between the least and the greatest of the three.
use tabulum.Prelude.{ℕ, ◌+◌, ◌-◌, ◌*◌, ◌/◌, ◌%◌, String, ◌<>◌, ltb, if◌then◌else◌, show}

-- `1 - Math.abs(((hue / 60) % 2) - 1)`, in 60000ths, for a hue in thousandths of a degree
unfoldable pub slope : ℕ → ℕ
slope h = let p = h % 120000 in if ltb p 60000 then p else 120000 - p

pub record Rgb : Type 0 where
  pub r : ℕ
  pub g : ℕ
  pub b : ℕ

abbrev rgb : ℕ → ℕ → ℕ → Rgb
rgb r g b = record { r = r; g = g; b = b }

-- The six sectors, with `c` as 60000 and `x` as the slope.
unfoldable pub sector : ℕ → Rgb
unfolding slope
sector h =
    if ltb h 60000
    then rgb 60000 (slope h) 0
    else if ltb h 120000
    then rgb (slope h) 60000 0
    else if ltb h 180000
    then rgb 0 60000 (slope h)
    else if ltb h 240000
    then rgb 0 (slope h) 60000
    else if ltb h 300000
    then rgb (slope h) 0 60000
    else rgb 60000 0 (slope h)

-- `Math.round((v + m) * 255)`, where `v` is `t / 60000` of `c` = 0.315, and `m` = 0.4925
unfoldable pub channel : ℕ → ℕ
channel t = (2 * 255 * (3150 * t + 4925 * 60000) + 600000000) / 1200000000

unfoldable pub hex_digit : ℕ → String
unfolding show
hex_digit n =
    if ltb n 10
    then show n
    else if ltb n 11
    then "a"
    else if ltb n 12
    then "b"
    else if ltb n 13
    then "c"
    else if ltb n 14
    then "d"
    else if ltb n 15
    then "e"
    else "f"

-- `toString(16).padStart(2, '0')` of a number below 256
unfoldable pub hex_byte : ℕ → String
unfolding hex_digit
hex_byte n = hex_digit (n / 16) <> hex_digit (n % 16)

unfoldable pub hue_to_hex : ℕ → String
hue_to_hex h =
    "#"
    <> hex_byte (channel (sector h).r)
    <> hex_byte (channel (sector h).g)
    <> hex_byte (channel (sector h).b)

-- `Math.round(hue)` of a hue in thousandths, and the colour of the 2D view
unfoldable pub hue_to_color : ℕ → String → String
unfolding show
hue_to_color h alpha = "hsla(" <> show ((h + 500) / 1000) <> ", 45%, 65%, " <> alpha <> ")"
