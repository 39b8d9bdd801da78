-- ===== src/NetworkGraph/Hash.antt =====
-- The hue that NetworkGraph.jsx derives from an address.
use tabulum.Prelude.{ℕ, ◌+◌, ◌-◌, ◌*◌, ◌%◌, ◌^◌, List, [], ◌∷◌, ltb, if◌then◌else◌}

-- An int32 is kept as its bit pattern, a number below 2 ^ 32.
abbrev pub u32 : ℕ
u32 = 2 ^ 32

-- `((h << 5) - h + c) | 0`, with the modulus added so that the difference does not stop at 0
unfoldable pub hash_step : ℕ → ℕ → ℕ
hash_step h c = ((h * 32) % u32 + u32 - h + c) % u32

-- the loop over the UTF-16 units of the text
unfoldable pub hash_from : ℕ → List ℕ → ℕ
unfolding hash_step
hash_from h [] = h
hash_from h (c ∷ s) = hash_from (hash_step h c) s

-- `Math.abs(h)` of the int32 with that pattern
unfoldable pub magnitude : ℕ → ℕ
magnitude h = if ltb h (2 ^ 31) then h else u32 - h

unfoldable pub hash_hue : List ℕ → ℕ
unfolding hash_from magnitude
hash_hue s = magnitude (hash_from 0 s) % 360
