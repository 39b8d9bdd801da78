-- ===== src/StateBrowser/Sizes.antt =====
-- The accuracy of the sizes that StateBrowser.jsx writes.
use tabulum.Prelude.{ℕ, ◌+◌, ◌*◌, ◌≤◌, arith}
use tabulum.StateBrowser.Format.{kilobyte_tenths}

-- The size in kilobytes that is shown is within half a tenth of the true one, above and below; it
-- never falls when the number of bytes grows; and from 1024 bytes on it is at least 1.0.
pub kilobyte_tenths_near :
    (n m : ℕ)
    → n ≤ m
    → (1024 * kilobyte_tenths n ≤ 10 * n + 512)
      × (10 * n ≤ 1024 * kilobyte_tenths n + 512)
      × (kilobyte_tenths n ≤ kilobyte_tenths m)
      × (1024 ≤ n → 10 ≤ kilobyte_tenths n)
unfolding kilobyte_tenths
kilobyte_tenths_near n m h = (omega arith, omega arith, omega arith, λ k. omega arith)
