-- ===== src/BackgroundCanvas/Motion.antt =====
-- How a node of BackgroundCanvas.jsx moves in one frame. A node reads the others as they stand, those
-- before it already moved.
use tabulum.Prelude.{ℕ, suc, List, [], ◌∷◌, ◌&&◌, if◌then◌else◌, ◌==◌}
use tabulum.Prelude.Floats.{Floats, ◌⊕◌, ◌⊖◌, ◌⊗◌, ◌⊘◌, less, whole, dec, negative}
use tabulum.BackgroundCanvas.Config.{
  connection_dist_sq, drift, cohesion, separation, damping, mouse_radius, mouse_radius_sq,
  mouse_force,
}
use tabulum.BackgroundCanvas.Nodes.{Node, Scene, random}

-- What the loop over the other nodes adds up.
pub record Pull (R : Type 0) : Type 0 where
  pub vx : R
  pub vy : R
  pub cx : R
  pub cy : R
  pub neighbors : ℕ

module _ {R : Type 0} ⦃f : Floats R⦄ where
  abbrev pub cohesion_dist_sq : R
  cohesion_dist_sq = connection_dist_sq ⊗ dec 225 100

  -- One other node `m`, for a node at `x`, `y`.
  unfoldable pub pull_of : R → R → Node R → Pull R → Pull R
  pull_of x y m p =
      let dx = m.x ⊖ x in
      let dy = m.y ⊖ y in
      let dist_sq = dx ⊗ dx ⊕ dy ⊗ dy in
      let force = separation ⊘ f.sqrt dist_sq in
      let near : Pull R = record p {
        cx = p.cx ⊕ m.x;
        cy = p.cy ⊕ m.y;
        neighbors = suc p.neighbors;
      } in
      if less dist_sq cohesion_dist_sq
      then (if less dist_sq (whole 2500) && less (whole 0) dist_sq
          then record near { vx = p.vx ⊖ dx ⊗ force; vy = p.vy ⊖ dy ⊗ force }
          else near)
      else p

  -- The loop over `j`, for the node `i`.
  unfoldable pub gather : ℕ → R → R → ℕ → List (Node R) → Pull R → Pull R
  unfolding pull_of
  gather i x y j [] p = p
  gather i x y j (m ∷ ms) p = gather i x y (suc j) ms (if i == j then p else pull_of x y m p)

  unfoldable pub cohere : R → R → Pull R → R × R
  cohere x y p = if p.neighbors == 0 then (p.vx, p.vy) else (
    p.vx ⊕ (p.cx ⊘ whole p.neighbors ⊖ x) ⊗ cohesion,
    p.vy ⊕ (p.cy ⊘ whole p.neighbors ⊖ y) ⊗ cohesion,
  )

  -- The mouse pushes a node away.
  unfoldable pub repel : Scene R → R → R → R × R → R × R
  repel s x y v =
      let mdx = x ⊖ s.mouse_x in
      let mdy = y ⊖ s.mouse_y in
      let mdist_sq = mdx ⊗ mdx ⊕ mdy ⊗ mdy in
      let mdist = f.sqrt mdist_sq in
      let mf = (whole 1 ⊖ mdist ⊘ mouse_radius) ⊗ mouse_force in
      if less mdist_sq mouse_radius_sq && less (whole 0) mdist_sq
      then (v.0 ⊕ mdx ⊘ mdist ⊗ mf ⊗ whole 8, v.1 ⊕ mdy ⊘ mdist ⊗ mf ⊗ whole 8)
      else v

  abbrev pub margin : R
  margin = whole 50

  -- The two tests of one coordinate, for a side of length `side`.
  unfoldable pub wrap : R → R → R
  wrap side x =
      let x' = if less x (negative margin) then side ⊕ margin else x in
      if less (side ⊕ margin) x' then negative margin else x'

  -- The node `n` with index `i` after its move, before it may send a message.
  unfoldable pub move : (ℕ → R) → ℕ → Node R → Scene R → Node R × Scene R
  unfolding gather cohere repel wrap
  move rand i n s =
      let (r1, s1) = random rand s in
      let (r2, s2) = random rand s1 in
      let start : Pull R = record {
        vx = n.vx ⊕ (r1 ⊖ dec 5 10) ⊗ drift;
        vy = n.vy ⊕ (r2 ⊖ dec 5 10) ⊗ drift;
        cx = whole 0;
        cy = whole 0;
        neighbors = 0;
      } in
      let v = cohere n.x n.y (gather i n.x n.y 0 s.nodes start) in
      let homing : R × R = (
        v.0 ⊕ (n.cluster.cx ⊗ s.width ⊖ n.x) ⊗ dec 8 100000,
        v.1 ⊕ (n.cluster.cy ⊗ s.height ⊖ n.y) ⊗ dec 8 100000,
      ) in
      let pushed = repel s n.x n.y homing in
      let vx = pushed.0 ⊗ damping in
      let vy = pushed.1 ⊗ damping in
      (
        record n {
          x = wrap s.width (n.x ⊕ vx);
          y = wrap s.height (n.y ⊕ vy);
          vx = vx;
          vy = vy;
          age = suc n.age;
          glow = n.glow ⊗ dec 93 100;
        },
        s2,
      )
