-- ===== src/OgImage/Random.antt =====
-- `random` of gen-og-image.js, and its `seed`.
use tabulum.Prelude.{ℕ, ◌*◌, ◌%◌}
use tabulum.Prelude.Floats.{Floats, ◌⊖◌, ◌⊘◌, whole}

abbrev pub modulus : ℕ
modulus = 2147483647

unfoldable pub next_seed : ℕ → ℕ
next_seed seed = (seed * 16807) % modulus

module _ {R : Type 0} ⦃f : Floats R⦄ where
  -- the value of `random()` that leaves this seed
  unfoldable pub random_of : ℕ → R
  random_of seed = (whole seed ⊖ whole 1) ⊘ whole 2147483646

  unfoldable pub random : ℕ → R × ℕ
  unfolding next_seed random_of
  random seed = (random_of (next_seed seed), next_seed seed)
