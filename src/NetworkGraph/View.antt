-- ===== src/NetworkGraph/View.antt =====
-- What NetworkGraph.jsx asks usePolling for, and what it renders, without the markup.
use tabulum.Prelude.{
  String, List, [], ◌∷◌, Option, none, some, Bool, true, false, not, ◌&&◌, if◌then◌else◌, ◌<>◌,
  show, length, truthy, map,
}
use tabulum.UsePolling.{Options}
use tabulum.NetworkGraph.Graph.{name}
use tabulum.NetworkGraph.Hues.{Colors, assign_colors}
use tabulum.NetworkGraph.Scales.{RawNode, RawEdge}
use tabulum.NetworkGraph.Instances.{Mode, flat, deep, same_mode}

-- The resource that the server sends.
pub record Network : Type 0 where
  pub nodes : List RawNode
  pub edges : List RawEdge

-- The state of the component and of its hook, as it is rendered.
pub record Panel : Type 0 where
  pub auto_refresh : Bool
  pub mode : Mode
  pub network : Option Network
  pub loading : Bool
  pub error : Option String

pub record View : Type 0 where
  -- the classes of the two buttons
  pub flat_class : String
  pub deep_class : String
  pub checked : Bool
  pub shows_loading : Bool
  pub error_text : Option String
  pub counts : Option String
  -- which of the two containers there is
  pub container : Mode
  pub empty_text : Option String

unfoldable pub poll_options : Panel → Options
poll_options p = record {
  path = "/observe/network";
  interval = 30000;
  enabled = p.auto_refresh;
  params = [];
}

-- `data?.nodes?.length`, as a condition
abbrev pub has_nodes : Option Network → Bool
has_nodes none = false
has_nodes (some d) = elim d.nodes [ [] ↦ false | n ∷ ns ↦ true ]

abbrev pub button_class : Mode → Mode → String
button_class m mode = if same_mode mode m then "control-btn active" else "control-btn"

abbrev pub error_of : Option String → Option String
error_of none = none
error_of (some e) = if truthy e then some ("Error: " <> e) else none

abbrev pub counts_of : Option Network → Option String
counts_of none = none
counts_of (some d) =
    some (show (length d.nodes) <> " agents, " <> show (length d.edges) <> " connections")

unfoldable pub view : Panel → View
unfolding show
view p = record {
  flat_class = button_class flat p.mode;
  deep_class = button_class deep p.mode;
  checked = p.auto_refresh;
  shows_loading = p.loading;
  error_text = error_of p.error;
  counts = counts_of p.network;
  container = p.mode;
  empty_text =
      if not (has_nodes p.network) && not p.loading then some "No network data available" else none;
}

-- `assignColors` as renderGraph calls it.
unfoldable pub node_colors : Network → Colors
unfolding assign_colors
node_colors d =
    assign_colors (map (λ n. record { id = some n.address; address = n.address }) d.nodes)
      (map (λ e. record { source = name e.from; target = name e.to }) d.edges)
