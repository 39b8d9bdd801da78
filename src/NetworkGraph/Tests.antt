-- ===== src/NetworkGraph/Tests.antt =====
-- Graphs of NetworkGraph.jsx, and its theorems at concrete graphs and addresses.
use tabulum.Prelude.{
  leb, if◌then◌else◌, show, ℕ, ◌≤◌, ◌<◌, String, List, [], ◌∷◌, none, some, true, false, ◌≡◌, ◌&&◌,
  refl, All, codes, arith,
}
use tabulum.NetworkGraph.Hash.{hash_hue, hash_from, hash_step, magnitude}
use tabulum.NetworkGraph.Graph.{
  Node, Edge, name, node_id, end_id, get, set, elem, add, add_neighbour, empty_sets, add_edges,
  adjacency, neighbours, degree,
}
use tabulum.NetworkGraph.Sort.{insert, sort}
use tabulum.NetworkGraph.Hues.{
  candidate, hue_dist, min_dist, search_hue, best_hue, neighbour_hues, assign_from, base_hue,
  assign_colors,
}
use tabulum.NetworkGraph.Hex.{slope, sector, channel, hex_digit, hex_byte, hue_to_hex, hue_to_color}
use tabulum.NetworkGraph.Scales.{max_from_one, shown, link, max_activity, max_edge_count}
use tabulum.NetworkGraph.Instances.{
  deep, Canvas, mount, unmount, refresh, choose, resize, resolve, remove, is_pending, destroy,
  start, render_graph, step, run, initial,
}
use tabulum.NetworkGraph.Scales.{RawNode, RawEdge}
use tabulum.NetworkGraph.Instances.{flat}
use tabulum.NetworkGraph.Marks.{
  D3, after, remove_first, label_text, color_of, node_radius, edge_width, edge_opacity, line_of,
  circle_of, label_of, render_2d, ball_of, arrow_of, render_3d,
}
use tabulum.NetworkGraph.Hover.{new_nodes, new_size, Hover, enter, show_tip, gestures}
use tabulum.NetworkGraph.View.{view, poll_options, node_colors}
use tabulum.NetworkGraph.Radii.{IsScale, IsBetween, render_2d-IsBetween}
use tabulum.NetworkGraph.Tooltips.{resized_tooltip}
use tabulum.Prelude.Int.{ℤ, pos}
use tabulum.Prelude.Thousandths.{thousandths}
use tabulum.NetworkGraph.Lifetimes.{deep_leak}
use tabulum.NetworkGraph.Choice.{best_hue-farthest}
use tabulum.NetworkGraph.Coloring.{IsHue, assign_colors-IsHue}
use tabulum.NetworkGraph.Neighbours.{known, joined, neighbours-adjacency}

graphs : Unit {0}
unfolding node_id end_id get set elem add add_neighbour empty_sets add_edges adjacency neighbours
    degree insert sort candidate hue_dist min_dist search_hue best_hue neighbour_hues assign_from
    base_hue assign_colors hash_hue hash_from hash_step magnitude slope sector channel hex_digit
    hex_byte hue_to_hex hue_to_color max_from_one shown link max_activity max_edge_count
graphs = tt

lives : Unit {0}
unfolding remove is_pending destroy start render_graph step run initial
lives = tt

abbrev node : String → Node
node a = record { id = none; address = a }

abbrev edge : String → String → Edge
edge a b = record { source = name a; target = name b }

-- A star with its centre in the middle of the list.
abbrev star_nodes : List Node
star_nodes = node "a" ∷ node "b" ∷ node "c" ∷ []

abbrev star_edges : List Edge
star_edges = edge "a" "b" ∷ edge "b" "c" ∷ edge "c" "x" ∷ []

hashed : (hash_hue (codes "ab") ≡ 225) × (hash_hue (codes "a") ≡ 97)
unfolding graphs
hashed = (refl, refl)

star_colors :
    assign_colors star_nodes star_edges ≡ ("b", 98000) ∷ ("c", 288032) ∷ ("a", 275636) ∷ []
unfolding graphs
star_colors = refl

red : (hue_to_hex 0 ≡ "#ce7e7e") × (hue_to_color 90500 "0.6" ≡ "hsla(91, 45%, 65%, 0.6)")
unfolding graphs
red = (refl, refl)

quiet :
    (max_activity [] ≡ 1)
    × (max_edge_count (
          record { from = "a"; to = "b"; count = none }
          ∷ record { from = "a"; to = "b"; count = some 7 }
          ∷ [])
        ≡ 7)
unfolding graphs
quiet = (refl, refl)

best_hue-farthest_example :
    ((k : ℕ) × (k < 12) × (best_hue 97000 1 (97000 ∷ 300000 ∷ []) ≡ candidate 97000 1 k))
    × ((k : ℕ)
        → k < 12
        → min_dist (candidate 97000 1 k) 97000 (300000 ∷ [])
          ≤ min_dist (best_hue 97000 1 (97000 ∷ 300000 ∷ [])) 97000 (300000 ∷ []))
best_hue-farthest_example = best_hue-farthest 97000 1 97000 (300000 ∷ [])

assign_colors-IsHue_example :
    All (λ n. IsHue (get (node_id n) (assign_colors star_nodes star_edges))) star_nodes
assign_colors-IsHue_example = assign_colors-IsHue star_nodes star_edges

neighbours-adjacency_example :
    elem "x" (neighbours "c" (adjacency star_nodes star_edges))
    ≡ (known "c" star_nodes && joined "c" "x" star_edges)
neighbours-adjacency_example = neighbours-adjacency star_nodes star_edges "c" "x"

-- The 3D mode is chosen and its renderer is being loaded.
abbrev loading : Canvas
loading = run (mount ∷ refresh true ∷ choose deep ∷ []) initial

deep_leak_example :
    ((run (resize ∷ resolve 2 ∷ resolve loading.next_id ∷ unmount ∷ []) loading).running ≡ 2 ∷ [])
    × ((run (resize ∷ resolve 2 ∷ resolve loading.next_id ∷ unmount ∷ []) loading).mounted ≡ false)
    × ((run (resize ∷ resolve 2 ∷ resolve loading.next_id ∷ unmount ∷ []) loading).instance_ref
        ≡ none)
unfolding lives
deep_leak_example = deep_leak 2 loading refl refl refl refl refl refl (omega arith)

marks : Unit {0}
unfolding graphs after remove_first label_text color_of node_radius edge_width edge_opacity line_of
    circle_of label_of render_2d ball_of arrow_of render_3d view poll_options node_colors show
marks = tt

labels : (label_text "tab_x1" ≡ codes "x1") × (label_text "tab_" ≡ codes "tab_")
unfolding marks
labels = (refl, refl)

-- A scale of two steps, which goes to the end of its range where its domain ends.
abbrev steps : ℕ → ℤ → ℤ → ℕ → ℤ
steps m a b n = if leb m n then b else a

abbrev two_steps : D3 ℤ
two_steps = record { scale_sqrt = steps; scale_linear = steps }

steps-IsScale : IsScale steps
steps-IsScale m i j n h l = ground arith

abbrev agents : List RawNode
agents =
    record { address = "tab_a"; messages_sent = some 3; messages_received = none }
    ∷ record { address = "tab_b"; messages_sent = none; messages_received = some 9 }
    ∷ []

abbrev messages : List RawEdge
messages = record { from = "tab_a"; to = "tab_b"; count = some 3 } ∷ []

drawn : render_3d agents messages [] ≡ (
  record { color = "#ce7e7e"; val = pos 3664; label = "tab_a\nSent: 3  Received: 0" }
      ∷ record { color = "#ce7e7e"; val = pos 9000; label = "tab_b\nSent: 0  Received: 9" }
      ∷ [],
  record { source = "tab_a"; target = "tab_b"; color = "#ce7e7e66"; width = pos 3500 } ∷ [],
)
unfolding marks
drawn = refl

render_2d-IsBetween_example :
    All (λ c. IsBetween 8 28 c.r) (render_2d two_steps agents messages []).circles
    × All (λ l. IsBetween 1 6 l.stroke_width) (render_2d two_steps agents messages []).lines
render_2d-IsBetween_example =
    render_2d-IsBetween two_steps agents messages [] steps-IsScale steps-IsScale

abbrev hovering : Hover ℤ
hovering = record {
  mode = flat;
  nodes = [];
  circles = [];
  tip = record { visible = false; address = ""; stat = ""; left = pos 0; top = pos 0 };
}

abbrev first_agent : RawNode
first_agent = record { address = "tab_a"; messages_sent = some 3; messages_received = none }

resized_tooltip_example :
    ((gestures (new_nodes agents ∷ enter 0 ∷ []) hovering).tip ≡ show_tip first_agent hovering.tip)
    × ((gestures (new_nodes agents ∷ new_size ∷ enter 0 ∷ []) hovering).tip ≡ hovering.tip)
resized_tooltip_example = resized_tooltip hovering agents 0 first_agent (enter 0 ∷ []) refl refl tt

empty_panel :
    (view (record {
      auto_refresh = true;
      mode = flat;
      network = none;
      loading = false;
      error = some "";
    })).empty_text
    ≡ some "No network data available"
unfolding marks
empty_panel = refl
