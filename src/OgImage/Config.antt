-- ===== src/OgImage/Config.antt =====
-- The constants of gen-og-image.js.
use tabulum.Prelude.{ℕ, List, [], ◌∷◌}
use tabulum.Prelude.Floats.{Floats, ◌⊗◌, whole, dec}
use tabulum.Drawing.{Color, named}

pub record Cluster (R : Type 0) : Type 0 where
  pub cx : R
  pub cy : R
  pub spread : R

module _ {R : Type 0} ⦃f : Floats R⦄ where
  abbrev pub width : R
  width = whole 1200

  abbrev pub height : R
  height = whole 630

  abbrev pub node_radius : R
  node_radius = whole 5

  abbrev pub connection_dist : R
  connection_dist = whole 320

  abbrev pub connection_dist_sq : R
  connection_dist_sq = whole 320 ⊗ whole 320

  abbrev pub node_alpha : R
  node_alpha = dec 3 10

  abbrev pub edge_alpha : R
  edge_alpha = dec 6 100

  abbrev pub drift : R
  drift = dec 12 100

  abbrev pub cohesion : R
  cohesion = dec 15 100000

  abbrev pub separation : R
  separation = dec 35 1000

  abbrev pub damping : R
  damping = dec 97 100

  abbrev cluster : R → R → R → Cluster R
  cluster cx cy spread = record { cx = cx; cy = cy; spread = spread }

  abbrev pub clusters : List (Cluster R)
  clusters =
      cluster (dec 55 100) (dec 55 100) (dec 15 100)
      ∷ cluster (dec 78 100) (dec 3 10) (dec 18 100)
      ∷ cluster (dec 92 100) (dec 65 100) (dec 15 100)
      ∷ []

  abbrev pub background : Color R
  background = named "#0a0a0c"

  abbrev pub text_color : Color R
  text_color = named "#e8e6e1"

  abbrev pub accent : Color R
  accent = named "#92B890"

abbrev pub max_nodes : ℕ
max_nodes = 36
