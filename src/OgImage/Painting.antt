-- ===== src/OgImage/Painting.antt =====
-- What gen-og-image.js draws, and the script as a whole. `measure` stands for the width that the
-- canvas gives a text in the font of the hero line.
use tabulum.Prelude.{
  ℕ, suc, String, List, [], ◌∷◌, ◌++◌, Option, none, some, Bool, if◌then◌else◌, get_elem?,
}
use tabulum.Prelude.Floats.{Floats, ◌⊕◌, ◌⊖◌, ◌⊗◌, ◌⊘◌, less, whole, dec}
use tabulum.Drawing.{
  named, gold, plain, gradient, Command, fill_style, stroke_style, line_width, fill_rect,
  begin_path, move_to, line_to, arc, stroke, fill, font, letter_spacing, fill_text,
}
use tabulum.OgImage.Config.{
  width, height, node_radius, connection_dist, node_alpha, edge_alpha, background, text_color,
  accent, max_nodes,
}
use tabulum.OgImage.Nodes.{Node, spawn_all}
use tabulum.OgImage.Physics.{simulate}
use tabulum.OgImage.Edges.{Connection, connections}
use tabulum.OgImage.Lights.{Pulse, Scene, elem, send_pulses, add_glow, glowing, highlight_edges}

-- Two statements, of which the second is not reached if the first throws.
abbrev pub both {ℓ} : {A : Type ℓ} → Option (List A) → Option (List A) → Option (List A)
both none q = none
both (some xs) none = none
both (some xs) (some ys) = some (xs ++ ys)

module _ {R : Type 0} ⦃f : Floats R⦄ where
  -- One edge: `a.x` or `b.x` throws if there is no such node.
  unfoldable pub draw_edge : List (Node R) → Bool → Connection R → Option (List (Command R))
  draw_edge nodes chosen c = elim (get_elem? nodes c.i) [
    | none ↦ none
    | some a ↦ elim (get_elem? nodes c.j) [
      | none ↦ none
      | some b ↦
          let strength = whole 1 ⊖ c.dist ⊘ connection_dist in
          some (
            stroke_style
              (plain (gold (if chosen then dec 16 100 ⊗ strength else edge_alpha ⊗ strength)))
            ∷ line_width (if chosen then dec 12 10 else dec 8 10)
            ∷ begin_path
            ∷ move_to a.x a.y
            ∷ line_to b.x b.y
            ∷ stroke
            ∷ [])
    ]
  ]

  -- The loop over `ci`.
  unfoldable pub draw_edges :
      List (Node R) → List ℕ → ℕ → List (Connection R) → Option (List (Command R))
  unfolding draw_edge elem
  draw_edges nodes chosen ci [] = some []
  draw_edges nodes chosen ci (c ∷ cs) =
      let rest = draw_edges nodes chosen (suc ci) cs in
      both (draw_edge nodes (elem ci chosen) c) rest

  -- One pulse: `p.src.x` or `p.dst.x` throws if there is no such node.
  unfoldable pub draw_trail : List (Node R) → Pulse R → Option (List (Command R))
  draw_trail nodes p = elim (get_elem? nodes p.src) [
    | none ↦ none
    | some a ↦ elim (get_elem? nodes p.dst) [
      | none ↦ none
      | some b ↦
          let px = a.x ⊕ (b.x ⊖ a.x) ⊗ p.progress in
          let py = a.y ⊕ (b.y ⊖ a.y) ⊗ p.progress in
          some (
            begin_path
            ∷ move_to a.x a.y
            ∷ line_to px py
            ∷ stroke_style (
                gradient a.x a.y px py (whole 0, gold (whole 0))
                  (dec 6 10, gold (dec 12 100 ⊗ dec 3 10)) (whole 1, gold (dec 12 100)))
            ∷ line_width (dec 12 10)
            ∷ stroke
            ∷ begin_path
            ∷ arc px py node_radius
            ∷ fill_style (plain (gold (dec 12 100 ⊗ dec 7 10)))
            ∷ fill
            ∷ [])
    ]
  ]

  unfoldable pub draw_trails : List (Node R) → List (Pulse R) → Option (List (Command R))
  unfolding draw_trail
  draw_trails nodes [] = some []
  draw_trails nodes (p ∷ ps) = let rest = draw_trails nodes ps in both (draw_trail nodes p) rest

  -- The rings round a node, and the loop over the nodes that have them.
  unfoldable pub draw_rings : Node R → List ℕ → List (Command R)
  draw_rings n [] = []
  draw_rings n (ring ∷ rings) =
      begin_path
      ∷ arc n.x n.y (whole ring)
      ∷ stroke_style (plain (gold ((whole 1 ⊖ whole ring ⊘ whole 30) ⊗ dec 25 100)))
      ∷ line_width (dec 9 10)
      ∷ stroke
      ∷ draw_rings n rings

  unfoldable pub draw_ripples : List (Node R) → List ℕ → List (Command R)
  unfolding draw_rings
  draw_ripples nodes [] = []
  draw_ripples nodes (k ∷ ks) = elim (get_elem? nodes k) [
    | none ↦ draw_ripples nodes ks
    | some n ↦ draw_rings n (10 ∷ 18 ∷ 25 ∷ []) ++ draw_ripples nodes ks
  ]

  unfoldable pub draw_node : Node R → List (Command R)
  draw_node n =
      let disc : List (Command R) =
        begin_path
        ∷ arc n.x n.y node_radius
        ∷ fill_style (plain (gold (node_alpha ⊕ n.glow ⊗ dec 4 10)))
        ∷ fill
        ∷ [] in
      if less (dec 5 100) n.glow
      then begin_path
        ∷ arc n.x n.y (node_radius ⊕ whole 3 ⊕ n.glow ⊗ whole 5)
        ∷ stroke_style (plain (gold (n.glow ⊗ dec 15 100)))
        ∷ line_width (dec 8 10)
        ∷ stroke
        ∷ disc
      else disc

  unfoldable pub draw_nodes : List (Node R) → List (Command R)
  unfolding draw_node
  draw_nodes [] = []
  draw_nodes (n ∷ ns) = draw_node n ++ draw_nodes ns

  unfoldable pub typography : (String → R) → List (Command R)
  typography measure =
      font "600 36px \"JetBrains Mono\""
      ∷ letter_spacing "0.14em"
      ∷ fill_style (plain text_color)
      ∷ fill_text "TABULUM" (whole 65) (whole 75)
      ∷ font "500 22px \"JetBrains Mono\""
      ∷ letter_spacing "0"
      ∷ fill_style (plain (named "rgb(210, 190, 160)"))
      ∷ fill_text "An ecosystem for autonomous agents" (whole 65) (whole 145)
      ∷ font "62px \"DM Serif Display\""
      ∷ letter_spacing "0"
      ∷ fill_style (plain accent)
      ∷ fill_text "The blank surface" (whole 65) (whole 270)
      ∷ fill_text "on which " (whole 65) (whole 270 ⊕ whole 76)
      ∷ font "700 72px \"Caveat\""
      ∷ fill_style (plain text_color)
      ∷ fill_text "anything" (whole 65 ⊕ measure "on which ") (whole 270 ⊕ whole 76)
      ∷ font "62px \"DM Serif Display\""
      ∷ fill_style (plain accent)
      ∷ fill_text "could be written" (whole 65) (whole 270 ⊕ whole 76 ⊗ whole 2)
      ∷ []

  -- `none` if it throws.
  unfoldable pub paint :
      (String → R) → List (Connection R) → Scene R → List (Node R) → Option (List (Command R))
  unfolding draw_edges draw_trails draw_ripples draw_nodes typography highlight_edges
  paint measure conns s nodes = elim (draw_edges nodes (highlight_edges conns) 0 conns) [
    | none ↦ none
    | some edges ↦ elim (draw_trails nodes s.pulses) [
      | none ↦ none
      | some trails ↦ some (
          (fill_style (plain background)
            ∷ fill_rect (whole 0) (whole 0) width height
            ∷ line_width (dec 8 10)
            ∷ [])
          ++ edges
          ++ trails
          ++ draw_ripples nodes (15 ∷ 24 ∷ [])
          ++ draw_nodes nodes
          ++ typography measure)
    ]
  ]

  -- What is drawn once the nodes have been made, and with which seed.
  unfoldable pub picture : (String → R) → List (Node R) → ℕ → Option (List (Command R))
  unfolding simulate connections send_pulses add_glow paint
  picture measure spawned seed =
      let (nodes, s) = simulate 500 spawned seed in
      let conns = connections nodes in
      let scene = send_pulses conns nodes in
      let (lit, s') = add_glow glowing scene.nodes s in paint measure conns scene lit

  unfoldable pub picture_of : (String → R) → Option (List (Node R) × ℕ) → Option (List (Command R))
  unfolding picture
  picture_of measure none = none
  picture_of measure (some (spawned, seed)) = picture measure spawned seed

  -- What is drawn, from the seed 42 on: `none` if it throws.
  unfoldable pub image : (String → R) → Option (List (Command R))
  unfolding spawn_all picture_of
  image measure = picture_of measure (spawn_all max_nodes [] 42)
