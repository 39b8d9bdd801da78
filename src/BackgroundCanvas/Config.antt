-- ===== src/BackgroundCanvas/Config.antt =====
-- The constants of BackgroundCanvas.jsx.
use tabulum.Prelude.{ℕ, List, [], ◌∷◌}
use tabulum.Prelude.Floats.{Floats, ◌⊗◌, whole, dec, negative}

pub record Cluster (R : Type 0) : Type 0 where
  pub cx : R
  pub cy : R
  pub spread : R

abbrev pub max_nodes : ℕ
max_nodes = 40

abbrev pub fade_in_frames : ℕ
fade_in_frames = 120

abbrev pub message_min_age : ℕ
message_min_age = 200

abbrev pub ripple_duration : ℕ
ripple_duration = 50

module _ {R : Type 0} ⦃f : Floats R⦄ where
  abbrev pub spawn_rate : R
  spawn_rate = dec 3 10

  abbrev pub node_radius : R
  node_radius = whole 5

  abbrev pub connection_dist : R
  connection_dist = whole 300

  abbrev pub connection_dist_sq : R
  connection_dist_sq = whole 300 ⊗ whole 300

  abbrev pub mouse_radius : R
  mouse_radius = whole 255

  abbrev pub mouse_radius_sq : R
  mouse_radius_sq = whole 255 ⊗ whole 255

  abbrev pub mouse_force : R
  mouse_force = dec 8 100

  abbrev pub drift : R
  drift = dec 12 100

  abbrev pub cohesion : R
  cohesion = dec 15 100000

  abbrev pub separation : R
  separation = dec 35 1000

  abbrev pub damping : R
  damping = dec 97 100

  abbrev pub node_alpha : R
  node_alpha = dec 25 100

  abbrev pub edge_alpha : R
  edge_alpha = dec 5 100

  abbrev pub message_rate : R
  message_rate = dec 5 1000

  abbrev pub pulse_speed : R
  pulse_speed = dec 24 10

  abbrev pub pulse_trail_alpha : R
  pulse_trail_alpha = dec 1 10

  abbrev pub pulse_head_radius : R
  pulse_head_radius = whole 4

  abbrev pub ripple_max_radius : R
  ripple_max_radius = whole 25

  -- where the mouse is while it is not over the page
  abbrev pub away : R
  away = negative (whole 1000)

  abbrev cluster : R → R → R → Cluster R
  cluster cx cy spread = record { cx = cx; cy = cy; spread = spread }

  abbrev pub clusters : List (Cluster R)
  clusters =
      cluster (dec 8 100) (dec 25 100) (dec 1 10)
      ∷ cluster (dec 92 100) (dec 3 10) (dec 1 10)
      ∷ cluster (dec 1 10) (dec 7 10) (dec 12 100)
      ∷ cluster (dec 9 10) (dec 75 100) (dec 1 10)
      ∷ cluster (dec 5 10) (dec 9 10) (dec 15 100)
      ∷ []
