-- ===== src/BackgroundCanvas/Nodes.antt =====
-- The nodes and pulses of BackgroundCanvas.jsx, and `spawnNode`.
use tabulum.Prelude.{ℕ, suc, ◌+◌, List, [], ◌∷◌, ◌++◌, Option, none, some, Bool, length, get_elem?}
use tabulum.Prelude.Floats.{Floats, ◌⊕◌, ◌⊖◌, ◌⊗◌, whole, dec}
use tabulum.BackgroundCanvas.Config.{Cluster, clusters}

pub record Node (R : Type 0) : Type 0 where
  pub x : R
  pub y : R
  pub cluster : Cluster R
  pub vx : R
  pub vy : R
  pub age : ℕ
  pub glow : R

-- The nodes at its ends are kept as their indices, since nodes are only ever added at the end; `none`
-- stands for undefined.
pub record Pulse (R : Type 0) : Type 0 where
  pub from_node : ℕ
  pub to_node : Option ℕ
  pub x : R
  pub y : R
  pub progress : R
  pub alive : Bool
  pub age : ℕ

pub record Scene (R : Type 0) : Type 0 where
  pub width : R
  pub height : R
  pub mouse_x : R
  pub mouse_y : R
  pub nodes : List (Node R)
  pub pulses : List (Pulse R)
  pub tick : ℕ
  -- how many values Math.random has returned
  pub drawn : ℕ

-- How a function ends: it returns, or it throws with the scene as it is then.
pub data Outcome (R : Type 0) : Type 0 where
  done : Scene R → Outcome R
  thrown : Scene R → Outcome R

module _ {R : Type 0} ⦃f : Floats R⦄ (rand : ℕ → R) where
  abbrev pub random : Scene R → R × Scene R
  random s = (rand s.drawn, record s { drawn = suc s.drawn })

  unfoldable pub place : Cluster R → Scene R → Scene R
  place c s =
      let (r1, s1) = random s in
      let (r2, s2) = random s1 in
      let (r3, s3) = random s2 in
      let (r4, s4) = random s3 in
      let (r5, s5) = random s4 in
      let angle = r1 ⊗ f.pi ⊗ whole 2 in
      let radius = (r2 ⊕ r3) ⊗ dec 5 10 ⊗ c.spread in
      record s5 {
        nodes =
            s.nodes
            ++ record {
              x = (c.cx ⊕ f.cos angle ⊗ radius) ⊗ s.width;
              y = (c.cy ⊕ f.sin angle ⊗ radius) ⊗ s.height;
              cluster = c;
              vx = (r4 ⊖ dec 5 10) ⊗ dec 5 10;
              vy = (r5 ⊖ dec 5 10) ⊗ dec 5 10;
              age = 0;
              glow = whole 0;
            }
              ∷ [];
      }

  -- It throws at `c.spread` where there is no such cluster, three more random numbers later.
  unfoldable pub spawn_node : Scene R → Outcome R
  unfolding place
  spawn_node s =
      let (r, s') = random s in
      elim (get_elem? clusters (f.floor (r ⊗ whole (length (clusters {R = R}))))) [
        | none ↦ thrown (record s' { drawn = s'.drawn + 3 })
        | some c ↦ done (place c s')
      ]
