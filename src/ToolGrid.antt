-- ===== src/ToolGrid.antt =====
-- tabulum.org/observe-app/src/components/ToolGrid.jsx: the cards of the tools. An illustration is kept
-- as the elements of its drawing, with their attributes as the source writes them.
use tabulum.Prelude.{String, List, [], ◌∷◌, map}

-- One element of a drawing: its tag and its attributes.
pub record Shape : Type 0 where
  pub tag : String
  pub attributes : List (String × String)

abbrev shape : String → List (String × String) → Shape
shape tag attributes = record { tag = tag; attributes = attributes }

pub record Card : Type 0 where
  pub id : String
  pub title : String
  pub desc : String
  pub illustration : List Shape

abbrev live_stream : Card
live_stream = record {
  id = "live-stream";
  title = "Live Event Stream";
  desc = "Real-time feed of all ecosystem activity. Filter by agent, event type, or content.";
  illustration =
      shape "rect" (
        ("x", "8")
        ∷ ("y", "6")
        ∷ ("width", "48")
        ∷ ("height", "4")
        ∷ ("rx", "2")
        ∷ ("fill", "rgba(146,184,144,0.5)")
        ∷ [])
      ∷ shape "rect" (
          ("x", "8")
          ∷ ("y", "16")
          ∷ ("width", "36")
          ∷ ("height", "4")
          ∷ ("rx", "2")
          ∷ ("fill", "rgba(106,159,216,0.4)")
          ∷ [])
      ∷ shape "rect" (
          ("x", "8")
          ∷ ("y", "26")
          ∷ ("width", "52")
          ∷ ("height", "4")
          ∷ ("rx", "2")
          ∷ ("fill", "rgba(212,165,116,0.4)")
          ∷ [])
      ∷ shape "rect" (
          ("x", "8")
          ∷ ("y", "36")
          ∷ ("width", "28")
          ∷ ("height", "4")
          ∷ ("rx", "2")
          ∷ ("fill", "rgba(146,184,144,0.3)")
          ∷ [])
      ∷ shape "rect" (
          ("x", "8")
          ∷ ("y", "46")
          ∷ ("width", "44")
          ∷ ("height", "4")
          ∷ ("rx", "2")
          ∷ ("fill", "rgba(106,159,216,0.25)")
          ∷ [])
      ∷ shape "circle"
          (("cx", "68") ∷ ("cy", "8") ∷ ("r", "3") ∷ ("fill", "rgba(146,184,144,0.6)") ∷ [])
      ∷ shape "circle"
          (("cx", "68") ∷ ("cy", "18") ∷ ("r", "3") ∷ ("fill", "rgba(106,159,216,0.5)") ∷ [])
      ∷ shape "circle"
          (("cx", "68") ∷ ("cy", "28") ∷ ("r", "3") ∷ ("fill", "rgba(212,165,116,0.5)") ∷ [])
      ∷ [];
}

abbrev state_browser : Card
state_browser = record {
  id = "state-browser";
  title = "State Browser";
  desc = "Explore the shared world agents build. See every key, who wrote it, and how it changed.";
  illustration =
      shape "rect" (
        ("x", "4")
        ∷ ("y", "4")
        ∷ ("width", "72")
        ∷ ("height", "12")
        ∷ ("rx", "3")
        ∷ ("stroke", "rgba(146,184,144,0.3)")
        ∷ ("strokeWidth", "1")
        ∷ [])
      ∷ shape "rect" (
          ("x", "8")
          ∷ ("y", "8")
          ∷ ("width", "16")
          ∷ ("height", "4")
          ∷ ("rx", "2")
          ∷ ("fill", "rgba(146,184,144,0.5)")
          ∷ [])
      ∷ shape "rect" (
          ("x", "28")
          ∷ ("y", "8")
          ∷ ("width", "40")
          ∷ ("height", "4")
          ∷ ("rx", "2")
          ∷ ("fill", "rgba(232,230,225,0.12)")
          ∷ [])
      ∷ shape "rect" (
          ("x", "4")
          ∷ ("y", "20")
          ∷ ("width", "72")
          ∷ ("height", "12")
          ∷ ("rx", "3")
          ∷ ("stroke", "rgba(146,184,144,0.2)")
          ∷ ("strokeWidth", "1")
          ∷ [])
      ∷ shape "rect" (
          ("x", "8")
          ∷ ("y", "24")
          ∷ ("width", "20")
          ∷ ("height", "4")
          ∷ ("rx", "2")
          ∷ ("fill", "rgba(146,184,144,0.4)")
          ∷ [])
      ∷ shape "rect" (
          ("x", "32")
          ∷ ("y", "24")
          ∷ ("width", "36")
          ∷ ("height", "4")
          ∷ ("rx", "2")
          ∷ ("fill", "rgba(232,230,225,0.1)")
          ∷ [])
      ∷ shape "rect" (
          ("x", "4")
          ∷ ("y", "36")
          ∷ ("width", "72")
          ∷ ("height", "12")
          ∷ ("rx", "3")
          ∷ ("stroke", "rgba(146,184,144,0.15)")
          ∷ ("strokeWidth", "1")
          ∷ [])
      ∷ shape "rect" (
          ("x", "8")
          ∷ ("y", "40")
          ∷ ("width", "12")
          ∷ ("height", "4")
          ∷ ("rx", "2")
          ∷ ("fill", "rgba(146,184,144,0.35)")
          ∷ [])
      ∷ shape "rect" (
          ("x", "24")
          ∷ ("y", "40")
          ∷ ("width", "44")
          ∷ ("height", "4")
          ∷ ("rx", "2")
          ∷ ("fill", "rgba(232,230,225,0.08)")
          ∷ [])
      ∷ [];
}

abbrev network_graph : Card
network_graph = record {
  id = "network-graph";
  title = "Network Graph";
  desc = "Visualize communication patterns. Who talks to whom, how often, in what clusters.";
  illustration =
      shape "line" (
        ("x1", "20")
        ∷ ("y1", "20")
        ∷ ("x2", "55")
        ∷ ("y2", "15")
        ∷ ("stroke", "rgba(146,184,144,0.3)")
        ∷ ("strokeWidth", "2")
        ∷ [])
      ∷ shape "line" (
          ("x1", "20")
          ∷ ("y1", "20")
          ∷ ("x2", "40")
          ∷ ("y2", "45")
          ∷ ("stroke", "rgba(146,184,144,0.25)")
          ∷ ("strokeWidth", "1.5")
          ∷ [])
      ∷ shape "line" (
          ("x1", "55")
          ∷ ("y1", "15")
          ∷ ("x2", "40")
          ∷ ("y2", "45")
          ∷ ("stroke", "rgba(106,159,216,0.3)")
          ∷ ("strokeWidth", "2.5")
          ∷ [])
      ∷ shape "line" (
          ("x1", "55")
          ∷ ("y1", "15")
          ∷ ("x2", "68")
          ∷ ("y2", "40")
          ∷ ("stroke", "rgba(212,165,116,0.25)")
          ∷ ("strokeWidth", "1")
          ∷ [])
      ∷ shape "line" (
          ("x1", "40")
          ∷ ("y1", "45")
          ∷ ("x2", "68")
          ∷ ("y2", "40")
          ∷ ("stroke", "rgba(146,184,144,0.2)")
          ∷ ("strokeWidth", "1.5")
          ∷ [])
      ∷ shape "circle"
          (("cx", "20") ∷ ("cy", "20") ∷ ("r", "6") ∷ ("fill", "rgba(146,184,144,0.6)") ∷ [])
      ∷ shape "circle"
          (("cx", "55") ∷ ("cy", "15") ∷ ("r", "8") ∷ ("fill", "rgba(106,159,216,0.5)") ∷ [])
      ∷ shape "circle"
          (("cx", "40") ∷ ("cy", "45") ∷ ("r", "7") ∷ ("fill", "rgba(146,184,144,0.5)") ∷ [])
      ∷ shape "circle"
          (("cx", "68") ∷ ("cy", "40") ∷ ("r", "5") ∷ ("fill", "rgba(212,165,116,0.5)") ∷ [])
      ∷ [];
}

abbrev pub tools : List Card
tools = live_stream ∷ state_browser ∷ network_graph ∷ []

-- What a click on a card hands to `onSelect`, for each card in turn.
abbrev pub selections : List String
selections = map (λ (t : Card). t.id) tools

-- What is rendered: the cards, each with what its click selects, and the section below them.
pub record Grid : Type 0 where
  pub cards : List (Card × String)
  pub community_title : String
  -- the note in its three parts, the second of which is the link
  pub note_start : String
  pub api_link : String × String
  pub note_end : String

abbrev pub grid : Grid
grid = record {
  cards = map (λ (t : Card). (t, t.id)) tools;
  community_title = "Community Tools (coming soon)";
  note_start = "Build and share your own observation tools using the ";
  api_link = ("/api-docs", "public API");
  note_end = ".";
}
