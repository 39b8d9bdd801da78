-- ===== src/NetworkGraph/Radii.antt =====
-- How large the circles of the 2D view are, and how wide its lines.
use tabulum.Prelude.{ℕ, ◌≤◌, List, [], ◌∷◌, true, ◌≡◌, arith, All, map}
use tabulum.Prelude.Floats.{Floats, whole}
use tabulum.NetworkGraph.Hues.{Colors}
use tabulum.NetworkGraph.Scales.{
  RawNode, RawEdge, shown, link, max_from_one, max_activity, max_edge_count,
}
use tabulum.NetworkGraph.Marks.{D3, node_radius, edge_width, circle_of, line_of, render_2d}

module _ {R : Type 0} ⦃f : Floats R⦄ where
  -- What d3 promises of a scale: a value of its domain goes to its range.
  abbrev pub IsScale : (ℕ → R → R → ℕ → R) → Type 0
  IsScale scale =
      (m i j n : ℕ)
      → n ≤ m
      → i ≤ j
      → (f.le (whole i) (scale m (whole i) (whole j) n) ≡ true)
        × (f.le (scale m (whole i) (whole j) n) (whole j) ≡ true)

  abbrev pub IsBetween : ℕ → ℕ → R → Type 0
  IsBetween i j x = (f.le (whole i) x ≡ true) × (f.le x (whole j) ≡ true)

max_from_one-All : (ns : List ℕ) (b : ℕ) → max_from_one ns ≤ b → All (λ n. n ≤ b) ns
unfolding max_from_one
max_from_one-All [] b h = tt
max_from_one-All (n ∷ ns) b h = (omega arith, max_from_one-All ns b (omega arith))

module _ {R : Type 0} ⦃f : Floats R⦄ (d3 : D3 R) (ns : List RawNode) (es : List RawEdge) where
  circles-IsBetween :
      (colors : Colors) (ms : List RawNode)
      → IsScale d3.scale_sqrt
      → All (λ n. n ≤ max_activity ns) (map (λ n. (shown n).activity) ms)
      → All (λ c. IsBetween 8 28 c.r) (map (circle_of d3 ns es colors) ms)
  unfolding circle_of node_radius
  circles-IsBetween colors [] s h = tt
  circles-IsBetween colors (n ∷ ms) s h = (
    s (max_activity ns) 8 28 (shown n).activity h.0 (omega arith),
    circles-IsBetween colors ms s h.1,
  )

  lines-IsBetween :
      (colors : Colors) (ks : List RawEdge)
      → IsScale d3.scale_linear
      → All (λ n. n ≤ max_edge_count es) (map (λ e. (link e).count) ks)
      → All (λ l. IsBetween 1 6 l.stroke_width) (map (line_of d3 ns es colors) ks)
  unfolding line_of edge_width
  lines-IsBetween colors [] s h = tt
  lines-IsBetween colors (e ∷ ks) s h =
      (s (max_edge_count es) 1 6 (link e).count h.0 (omega arith), lines-IsBetween colors ks s h.1)

  -- Every circle of the 2D view has a radius from 8 to 28 and every line a width from 1 to 6, however
  -- large the counts are, and with missing ones too: where d3's scales map their domain to their range.
  pub render_2d-IsBetween :
      (colors : Colors)
      → IsScale d3.scale_sqrt
      → IsScale d3.scale_linear
      → All (λ c. IsBetween 8 28 c.r) (render_2d d3 ns es colors).circles
        × All (λ l. IsBetween 1 6 l.stroke_width) (render_2d d3 ns es colors).lines
  unfolding render_2d max_activity max_edge_count
  render_2d-IsBetween colors s l = (
    circles-IsBetween colors ns s
        (max_from_one-All (map (λ n. (shown n).activity) ns) (max_activity ns) (omega arith)),
    lines-IsBetween colors es l
        (max_from_one-All (map (λ e. (link e).count) es) (max_edge_count es) (omega arith)),
  )
