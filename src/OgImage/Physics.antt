-- ===== src/OgImage/Physics.antt =====
-- The simulation of gen-og-image.js. A node reads the others as they stand, those before it already
-- moved in this tick.
use tabulum.Prelude.{
  ℕ, zero, suc, List, [], ◌∷◌, none, some, ◌&&◌, if◌then◌else◌, ◌==◌, length, get_elem?, set,
}
use tabulum.Prelude.Floats.{Floats, ◌⊕◌, ◌⊖◌, ◌⊗◌, ◌⊘◌, less, whole, dec, negative}
use tabulum.OgImage.Config.{width, height, connection_dist_sq, drift, cohesion, separation, damping}
use tabulum.OgImage.Random.{random}
use tabulum.OgImage.Nodes.{Node}

-- What the loop over the other nodes adds up.
pub record Pull (R : Type 0) : Type 0 where
  pub vx : R
  pub vy : R
  pub cx : R
  pub cy : R
  pub neighbors : ℕ

module _ {R : Type 0} ⦃f : Floats R⦄ where
  abbrev pub cohesion_dist_sq : R
  cohesion_dist_sq = connection_dist_sq ⊗ dec 225 100

  -- One other node `m`, for a node at `x`, `y`.
  unfoldable pub pull_of : R → R → Node R → Pull R → Pull R
  pull_of x y m p =
      let dx = m.x ⊖ x in
      let dy = m.y ⊖ y in
      let dist_sq = dx ⊗ dx ⊕ dy ⊗ dy in
      let force = separation ⊘ f.sqrt dist_sq in
      let near : Pull R = record p {
        cx = p.cx ⊕ m.x;
        cy = p.cy ⊕ m.y;
        neighbors = suc p.neighbors;
      } in
      if less dist_sq cohesion_dist_sq
      then (if less dist_sq (whole 2500) && less (whole 0) dist_sq
          then record near { vx = p.vx ⊖ dx ⊗ force; vy = p.vy ⊖ dy ⊗ force }
          else near)
      else p

  -- The loop over `j`, for the node `i`.
  unfoldable pub gather : ℕ → R → R → ℕ → List (Node R) → Pull R → Pull R
  unfolding pull_of
  gather i x y j [] p = p
  gather i x y j (m ∷ ms) p = gather i x y (suc j) ms (if i == j then p else pull_of x y m p)

  unfoldable pub cohere : R → R → Pull R → Pull R
  cohere x y p =
      let cx = p.cx ⊘ whole p.neighbors in
      let cy = p.cy ⊘ whole p.neighbors in
      if p.neighbors == 0 then p else record p {
        vx = p.vx ⊕ (cx ⊖ x) ⊗ cohesion;
        vy = p.vy ⊕ (cy ⊖ y) ⊗ cohesion;
        cx = cx;
        cy = cy;
      }

  abbrev pub margin : R
  margin = whole 50

  -- The two tests of one coordinate, for a side of length `side`.
  unfoldable pub wrap : R → R → R
  wrap side x =
      let x' = if less x (negative margin) then side ⊕ margin else x in
      if less (side ⊕ margin) x' then negative margin else x'

  -- The round of the loop for the node `n` with index `i`.
  unfoldable pub move : ℕ → List (Node R) → Node R → ℕ → Node R × ℕ
  unfolding random gather cohere wrap
  move i nodes n seed =
      let (r1, s1) = random seed in
      let (r2, s2) = random s1 in
      let vx0 = n.vx ⊕ (r1 ⊖ dec 5 10) ⊗ drift in
      let vy0 = n.vy ⊕ (r2 ⊖ dec 5 10) ⊗ drift in
      let start : Pull R = record {
        vx = vx0;
        vy = vy0;
        cx = whole 0;
        cy = whole 0;
        neighbors = 0;
      } in
      let p = cohere n.x n.y (gather i n.x n.y 0 nodes start) in
      let vx = (p.vx ⊕ (n.cluster.cx ⊗ width ⊖ n.x) ⊗ dec 8 100000) ⊗ damping in
      let vy = (p.vy ⊕ (n.cluster.cy ⊗ height ⊖ n.y) ⊗ dec 8 100000) ⊗ damping in
      (
        record n {
          x = wrap width (n.x ⊕ vx);
          y = wrap height (n.y ⊕ vy);
          vx = vx;
          vy = vy;
          glow = n.glow ⊗ dec 93 100;
        },
        s2,
      )

  -- The loop over `i`, with the rounds left.
  unfoldable pub move_from : ℕ → ℕ → List (Node R) → ℕ → List (Node R) × ℕ
  unfolding move
  move_from zero i nodes seed = (nodes, seed)
  move_from (suc left) i nodes seed = elim (get_elem? nodes i) [
    | none ↦ (nodes, seed)
    | some n ↦ let (n', s) = move i nodes n seed in move_from left (suc i) (set nodes i n') s
  ]

  -- The loop over the ticks.
  unfoldable pub simulate : ℕ → List (Node R) → ℕ → List (Node R) × ℕ
  unfolding move_from
  simulate zero nodes seed = (nodes, seed)
  simulate (suc ticks) nodes seed =
      let (nodes', s) = move_from (length nodes) 0 nodes seed in simulate ticks nodes' s
