-- ===== src/NetworkGraph/Marks.antt =====
-- What the two renderers draw for each node and edge. The scales of d3 are parameters, in the record
-- `D3`; the positions come from its simulation.
use tabulum.Prelude.{
  ◌==◌, if◌then◌else◌, ◌<>◌, show, Option, ℕ, String, List, [], ◌∷◌, none, some, map, codes,
}
use tabulum.Prelude.Floats.{Floats, ◌⊕◌, ◌⊗◌, ◌⊘◌, whole, dec}
use tabulum.NetworkGraph.Graph.{get}
use tabulum.NetworkGraph.Hues.{Colors}
use tabulum.NetworkGraph.Hex.{hue_to_hex, hue_to_color}
use tabulum.NetworkGraph.Scales.{RawNode, RawEdge, Shown, shown, link, max_activity, max_edge_count}

-- `scaleSqrt().domain([0, m]).range([a, b])` and the linear one, from `m`, `a` and `b` to a function
-- on counts.
pub record D3 (R : Type 0) : Type 0 where
  pub scale_sqrt : ℕ → R → R → ℕ → R
  pub scale_linear : ℕ → R → R → ℕ → R

-- What stands behind `p`, if the text begins with it.
unfoldable pub after : List ℕ → List ℕ → Option (List ℕ)
after [] s = some s
after (c ∷ p) [] = none
after (c ∷ p) (d ∷ s) = if c == d then after p s else none

-- The text behind the first occurrence of `p` follows the text before it.
unfoldable pub remove_first : List ℕ → List ℕ → List ℕ
unfolding after
remove_first p [] = []
remove_first p (c ∷ s) = elim (after p (c ∷ s)) [ none ↦ c ∷ remove_first p s | some r ↦ r ]

-- `d.address?.replace('tab_', '') || d.id`, where the id is the address
unfoldable pub label_text : String → List ℕ
unfolding remove_first
label_text address = elim (remove_first (codes "tab_") (codes address)) [
  | [] ↦ codes address
  | c ∷ s ↦ c ∷ s
]

-- `nodeColors.get(id) || 0`
unfoldable pub color_of : Colors → String → ℕ
unfolding get
color_of colors id = elim (get id colors) [ none ↦ 0 | some h ↦ h ]

pub record Line (R : Type 0) : Type 0 where
  pub source : String
  pub target : String
  pub stroke : String
  pub stroke_width : R
  pub stroke_opacity : R

pub record Circle (R : Type 0) : Type 0 where
  pub datum : Shown
  pub r : R
  pub fill : String
  pub stroke : String
  pub stroke_width : R

pub record Label (R : Type 0) : Type 0 where
  pub text : List ℕ
  pub dy : R

-- What render2D gives to its svg.
pub record FlatMarks (R : Type 0) : Type 0 where
  pub lines : List (Line R)
  pub circles : List (Circle R)
  pub labels : List (Label R)

-- What render3D tells its library of a node and of an edge.
pub record Ball (R : Type 0) : Type 0 where
  pub color : String
  pub val : R
  pub label : String

pub record Arrow (R : Type 0) : Type 0 where
  pub source : String
  pub target : String
  pub color : String
  pub width : R

module _ {R : Type 0} ⦃f : Floats R⦄ (d3 : D3 R) (ns : List RawNode) (es : List RawEdge) where
  unfoldable pub node_radius : ℕ → R
  unfolding max_activity
  node_radius n = d3.scale_sqrt (max_activity ns) (whole 8) (whole 28) n

  unfoldable pub edge_width : ℕ → R
  unfolding max_edge_count
  edge_width n = d3.scale_linear (max_edge_count es) (whole 1) (whole 6) n

  unfoldable pub edge_opacity : ℕ → R
  unfolding max_edge_count
  edge_opacity n = d3.scale_linear (max_edge_count es) (dec 15 100) (dec 5 10) n

  unfoldable pub line_of : Colors → RawEdge → Line R
  unfolding link edge_width edge_opacity color_of hue_to_color
  line_of colors e = record {
    source = e.from;
    target = e.to;
    stroke = hue_to_color (color_of colors e.from) "0.25";
    stroke_width = edge_width (link e).count;
    stroke_opacity = edge_opacity (link e).count;
  }

  unfoldable pub circle_of : Colors → RawNode → Circle R
  unfolding shown node_radius color_of hue_to_color
  circle_of colors n = record {
    datum = shown n;
    r = node_radius (shown n).activity;
    fill = hue_to_color (color_of colors n.address) "0.6";
    stroke = hue_to_color (color_of colors n.address) "0.3";
    stroke_width = dec 15 10;
  }

  unfoldable pub label_of : RawNode → Label R
  unfolding shown node_radius label_text
  label_of n = record {
    text = label_text n.address;
    dy = node_radius (shown n).activity ⊕ whole 14;
  }

  -- render2D, where each end of an edge is one of the nodes.
  unfoldable pub render_2d : Colors → FlatMarks R
  unfolding line_of circle_of label_of
  render_2d colors = record {
    lines = map (line_of colors) es;
    circles = map (circle_of colors) ns;
    labels = map label_of ns;
  }

module _ {R : Type 0} ⦃f : Floats R⦄ (ns : List RawNode) (es : List RawEdge) where
  unfoldable pub ball_of : Colors → RawNode → Ball R
  unfolding shown max_activity color_of hue_to_hex show
  ball_of colors n = record {
    color = hue_to_hex (color_of colors n.address);
    val = whole 1 ⊕ whole (shown n).activity ⊘ whole (max_activity ns) ⊗ whole 8;
    label =
        n.address
        <> "\nSent: "
        <> show (shown n).messages_sent
        <> "  Received: "
        <> show (shown n).messages_received;
  }

  unfoldable pub arrow_of : Colors → RawEdge → Arrow R
  unfolding link max_edge_count color_of hue_to_hex
  arrow_of colors e = record {
    source = e.from;
    target = e.to;
    color = hue_to_hex (color_of colors e.from) <> "66";
    width = dec 5 10 ⊕ whole (link e).count ⊘ whole (max_edge_count es) ⊗ whole 3;
  }

  unfoldable pub render_3d : Colors → List (Ball R) × List (Arrow R)
  unfolding ball_of arrow_of
  render_3d colors = (map (ball_of colors) ns, map (arrow_of colors) es)
