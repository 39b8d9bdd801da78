-- ===== src/StateBrowser/Format.antt =====
-- How StateBrowser.jsx writes sizes.
use tabulum.Prelude.{
  ℕ, ◌+◌, ◌*◌, ◌/◌, ◌%◌, String, Option, none, some, ◌<>◌, show, ltb, if◌then◌else◌,
}

-- The tenths of `(n / 1024).toFixed(1)`: the nearest, and the larger of two. The quotient by a power
-- of two is exact in floating point.
unfoldable pub kilobyte_tenths : ℕ → ℕ
kilobyte_tenths n = (n * 10 + 512) / 1024

unfoldable pub format_bytes : Option ℕ → String
unfolding kilobyte_tenths show
format_bytes none = "—"
format_bytes (some n) =
    if ltb n 1024
    then show n <> " B"
    else show (kilobyte_tenths n / 10) <> "." <> show (kilobyte_tenths n % 10) <> " KB"
