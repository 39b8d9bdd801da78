-- ===== src/NetworkGraph/Hashing.antt =====
-- The hash of NetworkGraph.jsx against arithmetic without overflow.
use tabulum.Prelude.{ℕ, ◌+◌, ◌*◌, ◌%◌, ◌<◌, List, [], ◌∷◌, ◌≡◌, refl, arith, ◌∙◌, ap}
use tabulum.NetworkGraph.Hash.{u32, hash_step, hash_from, magnitude, hash_hue}

-- The polynomial with the units as coefficients, at 31.
pub poly_from : ℕ → List ℕ → ℕ
poly_from p [] = p
poly_from p (c ∷ s) = poly_from (31 * p + c) s

hash_step-mod : (p c : ℕ) → hash_step (p % u32) c ≡ (31 * p + c) % u32
unfolding hash_step
hash_step-mod p c = omega arith

-- However long the text, the wrapped hash is the exact polynomial modulo 2 ^ 32.
pub hash_from-eq-poly : (s : List ℕ) (p : ℕ) → hash_from (p % u32) s ≡ poly_from p s % u32
unfolding hash_from poly_from
hash_from-eq-poly [] p = refl
hash_from-eq-poly (c ∷ s) p =
    ap (λ h. hash_from h s) (hash_step-mod p c) ∙ hash_from-eq-poly s (31 * p + c)

-- The hue of an address is the distance of its polynomial to the nearest multiple of 2 ^ 32, modulo
-- 360; in particular it is below 360.
pub hash_hue-eq :
    (s : List ℕ) → (hash_hue s ≡ magnitude (poly_from 0 s % u32) % 360) × (hash_hue s < 360)
unfolding hash_hue
hash_hue-eq s = (ap (λ h. magnitude h % 360) (hash_from-eq-poly s 0), omega arith)
