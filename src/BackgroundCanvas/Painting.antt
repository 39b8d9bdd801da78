-- ===== src/BackgroundCanvas/Painting.antt =====
-- `draw` of BackgroundCanvas.jsx, as the commands that it sends to the canvas.
use tabulum.Prelude.{List, [], ◌∷◌, ◌++◌, none, some, if◌then◌else◌, get_elem?}
use tabulum.Prelude.Floats.{Floats, ◌⊕◌, ◌⊖◌, ◌⊗◌, ◌⊘◌, less, least, whole, dec}
use tabulum.Drawing.{
  gold, plain, gradient, Command, fill_style, stroke_style, line_width, clear_rect, begin_path,
  move_to, line_to, arc, stroke, fill,
}
use tabulum.BackgroundCanvas.Config.{
  node_radius, connection_dist, connection_dist_sq, fade_in_frames, node_alpha, edge_alpha,
  pulse_trail_alpha, pulse_head_radius, ripple_duration, ripple_max_radius,
}
use tabulum.BackgroundCanvas.Nodes.{Node, Pulse, Scene}

module _ {R : Type 0} ⦃f : Floats R⦄ where
  -- `Math.min(1, age / CONFIG.fadeInFrames)`
  unfoldable pub fade : Node R → R
  fade n = least (whole 1) (whole n.age ⊘ whole fade_in_frames)

  unfoldable pub draw_edge : Node R → Node R → List (Command R)
  unfolding fade
  draw_edge a b =
      let dx = a.x ⊖ b.x in
      let dy = a.y ⊖ b.y in
      let dist_sq = dx ⊗ dx ⊕ dy ⊗ dy in
      let strength = whole 1 ⊖ f.sqrt dist_sq ⊘ connection_dist in
      let alpha = edge_alpha ⊗ strength ⊗ fade a ⊗ fade b in
      if less dist_sq connection_dist_sq
      then begin_path
        ∷ move_to a.x a.y
        ∷ line_to b.x b.y
        ∷ stroke_style (plain (gold alpha))
        ∷ stroke
        ∷ []
      else []

  -- The loop over `j`, for the node `a`.
  unfoldable pub draw_edges_of : Node R → List (Node R) → List (Command R)
  unfolding draw_edge fade
  draw_edges_of a [] = []
  draw_edges_of a (b ∷ bs) =
      (if less (fade b) (dec 5 100) then [] else draw_edge a b) ++ draw_edges_of a bs

  unfoldable pub draw_edges : List (Node R) → List (Command R)
  unfolding draw_edges_of fade
  draw_edges [] = []
  draw_edges (a ∷ others) =
      (if less (fade a) (dec 5 100) then [] else draw_edges_of a others) ++ draw_edges others

  -- A pulse on its way from the node `a`.
  unfoldable pub draw_trail : Node R → Pulse R → List (Command R)
  draw_trail a p =
      begin_path
      ∷ move_to a.x a.y
      ∷ line_to p.x p.y
      ∷ stroke_style (
          gradient a.x a.y p.x p.y (whole 0, gold (whole 0))
            (dec 6 10, gold (pulse_trail_alpha ⊗ dec 3 10)) (whole 1, gold pulse_trail_alpha))
      ∷ line_width (dec 12 10)
      ∷ stroke
      ∷ begin_path
      ∷ arc p.x p.y pulse_head_radius
      ∷ fill_style (plain (gold (pulse_trail_alpha ⊗ dec 7 10)))
      ∷ fill
      ∷ []

  -- The ripple of a pulse that has arrived at the node `b`, with `t` from 0 to 1.
  unfoldable pub draw_ripple : Node R → R → List (Command R)
  draw_ripple b t =
      if f.le t (whole 1)
      then begin_path
        ∷ arc b.x b.y (t ⊗ ripple_max_radius)
        ∷ stroke_style (plain (gold ((whole 1 ⊖ t) ⊗ dec 25 100)))
        ∷ line_width (dec 9 10)
        ∷ stroke
        ∷ []
      else []

  -- The nodes at both ends exist; a pulse without is drawn as nothing here.
  unfoldable pub draw_pulse : List (Node R) → Pulse R → List (Command R)
  unfolding draw_trail draw_ripple
  draw_pulse nodes p =
      if p.alive
      then elim (get_elem? nodes p.from_node) [ none ↦ [] | some a ↦ draw_trail a p ]
      else elim p.to_node [
        | none ↦ []
        | some t ↦ elim (get_elem? nodes t) [
          | none ↦ []
          | some b ↦ draw_ripple b (whole p.age ⊘ whole ripple_duration)
        ]
      ]

  unfoldable pub draw_pulses : List (Node R) → List (Pulse R) → List (Command R)
  unfolding draw_pulse
  draw_pulses nodes [] = []
  draw_pulses nodes (p ∷ ps) = draw_pulse nodes p ++ draw_pulses nodes ps

  unfoldable pub draw_node : Node R → List (Command R)
  unfolding fade
  draw_node n =
      let disc : List (Command R) =
        begin_path
        ∷ arc n.x n.y node_radius
        ∷ fill_style (plain (gold (node_alpha ⊗ fade n ⊕ n.glow ⊗ dec 4 10)))
        ∷ fill
        ∷ [] in
      if less (fade n) (dec 1 100)
      then []
      else if less (dec 5 100) n.glow
      then begin_path
        ∷ arc n.x n.y (node_radius ⊕ whole 3 ⊕ n.glow ⊗ whole 5)
        ∷ stroke_style (plain (gold (n.glow ⊗ dec 15 100)))
        ∷ line_width (dec 8 10)
        ∷ stroke
        ∷ disc
      else disc

  unfoldable pub draw_nodes : List (Node R) → List (Command R)
  unfolding draw_node
  draw_nodes [] = []
  draw_nodes (n ∷ ns) = draw_node n ++ draw_nodes ns

  unfoldable pub draw : Scene R → List (Command R)
  unfolding draw_edges draw_pulses draw_nodes
  draw s =
      clear_rect (whole 0) (whole 0) s.width s.height
      ∷ line_width (dec 8 10)
      ∷ (draw_edges s.nodes ++ draw_pulses s.nodes s.pulses ++ draw_nodes s.nodes)
