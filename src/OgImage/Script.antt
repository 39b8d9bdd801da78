-- ===== src/OgImage/Script.antt =====
-- gen-og-image.js from its first call of the canvas library to the file that it writes. The library and
-- the file system are the parameter `Platform`.
use tabulum.Prelude.{ℕ, String, List, [], ◌∷◌, Option, none, some, Bool, true, false, if◌then◌else◌}
use tabulum.Prelude.Floats.{Floats}
use tabulum.Drawing.{Command}
use tabulum.OgImage.Painting.{image}

pub record Font : Type 0 where
  pub file : String
  pub family : String
  pub weight : Option String

abbrev pub fonts : List Font
fonts =
    record {
      file = "/tmp/tabulum-fonts/DMSerifDisplay-Regular.ttf";
      family = "DM Serif Display";
      weight = none;
    }
    ∷ record {
      file = "/tmp/tabulum-fonts/jb-mono/fonts/ttf/JetBrainsMono-SemiBold.ttf";
      family = "JetBrains Mono";
      weight = some "600";
    }
    ∷ record {
      file = "/tmp/tabulum-fonts/jb-mono/fonts/ttf/JetBrainsMono-Medium.ttf";
      family = "JetBrains Mono";
      weight = some "500";
    }
    ∷ record { file = "/tmp/tabulum-fonts/Caveat-Bold.ttf"; family = "Caveat"; weight = some "700" }
    ∷ []

-- `path.join(__dirname, '..', 'tabulum.org', 'og-image.png')`, from the root of the repository
abbrev pub out_path : String
out_path = "tabulum.org/og-image.png"

pub record Platform (R : Type 0) : Type 0 where
  -- whether `registerFont` returns: it throws if it cannot read the file
  pub registers : Font → Bool
  -- `measureText(text).width`, in the font of the hero line
  pub measure : String → R
  -- `canvas.toBuffer('image/png')` after these commands, and whether `fs.writeFileSync` returns
  pub to_buffer : List (Command R) → Option (List ℕ)
  pub writes : String → List ℕ → Bool

unfoldable pub register_fonts : (Font → Bool) → List Font → Bool
register_fonts registers [] = true
register_fonts registers (f ∷ fs) =
    let rest = register_fonts registers fs in if registers f then rest else false

module _ {R : Type 0} ⦃f : Floats R⦄ where
  -- The path and the content of the file that is written; `none` if the script throws.
  unfoldable pub script : Platform R → Option (String × List ℕ)
  unfolding register_fonts image
  script p =
      if register_fonts p.registers fonts
      then elim (image p.measure) [
        | none ↦ none
        | some commands ↦ elim (p.to_buffer commands) [
          | none ↦ none
          | some bytes ↦ if p.writes out_path bytes then some (out_path, bytes) else none
        ]
      ]
      else none
