-- ===== src/Site/State.antt =====
-- The page of App.jsx, the instance of the tool's component on it, and those that have been left.
use tabulum.Prelude.{
  ℕ, zero, suc, String, List, [], ◌∷◌, Option, none, some, Bool, true, false, if◌then◌else◌,
}
use tabulum.App
use tabulum.App.{
  App, Component, live_event_stream, state_browser, network_graph, Page, grid, panel, blank, page,
}
use tabulum.UseWebSocket
use tabulum.LiveEventStream
use tabulum.LiveEventStream.{Stream}
use tabulum.StateBrowser
use tabulum.StateBrowser.{Browser}
use tabulum.NetworkGraph.Component as Graphs
use tabulum.NetworkGraph.Component.{Graph}

-- An instance of a tool's component.
pub data Shown : Type 0 where
  stream : Stream → Shown
  browser : Browser → Shown
  graph : Graph → Shown

-- What happens to an instance: the actions of its component.
pub data Inside : Type 0 where
  in_stream : LiveEventStream.Action → Inside
  in_browser : StateBrowser.Action → Inside
  in_graph : Graphs.Action → Inside

-- Who does it: React mounts and unmounts, the user acts on what the page shows, and the rest are the
-- callbacks that the instance has left with the browser.
pub data Origin : Type 0 where
  by_react by_user by_browser : Origin

abbrev pub origin_of_event {ℓ} : {E : Type ℓ} → UseWebSocket.Event E → Origin
origin_of_event (UseWebSocket.render b o) = by_react
origin_of_event (UseWebSocket.mount b) = by_react
origin_of_event UseWebSocket.unmount = by_react
origin_of_event UseWebSocket.clear = by_user
origin_of_event (UseWebSocket.open_event id) = by_browser
origin_of_event (UseWebSocket.message id m) = by_browser
origin_of_event (UseWebSocket.close_event id) = by_browser
origin_of_event (UseWebSocket.error_event id) = by_browser
origin_of_event (UseWebSocket.timeout id b) = by_browser
origin_of_event (UseWebSocket.tick id) = by_browser
origin_of_event (UseWebSocket.reply id r) = by_browser

abbrev pub origin : Inside → Origin
origin (in_stream (LiveEventStream.outside e)) = origin_of_event e
origin (in_stream (LiveEventStream.toggle b k)) = by_user
origin (in_stream (LiveEventStream.agent b a)) = by_user
origin (in_stream (LiveEventStream.pause b)) = by_user
origin (in_stream (LiveEventStream.auto on)) = by_user
origin (in_stream (LiveEventStream.scroll n)) = by_user
origin (in_stream LiveEventStream.clear) = by_user
origin (in_browser (StateBrowser.search p)) = by_user
origin (in_browser (StateBrowser.refresh on)) = by_user
origin (in_browser (StateBrowser.click k)) = by_user
origin (in_browser (StateBrowser.answer id a)) = by_browser
origin (in_browser StateBrowser.mount) = by_react
origin (in_browser StateBrowser.unmount) = by_react
origin (in_browser (StateBrowser.tick id)) = by_browser
origin (in_browser (StateBrowser.reply id r)) = by_browser
origin (in_graph Graphs.mount) = by_react
origin (in_graph Graphs.unmount) = by_react
origin (in_graph (Graphs.refresh on)) = by_user
origin (in_graph (Graphs.choose m)) = by_user
origin (in_graph Graphs.resize) = by_browser
origin (in_graph (Graphs.resolve id)) = by_browser
origin (in_graph (Graphs.tick id)) = by_browser
origin (in_graph (Graphs.reply id r)) = by_browser

abbrev pub component_of : Shown → Component
component_of (stream s) = live_event_stream
component_of (browser b) = state_browser
component_of (graph g) = network_graph

-- An action reaches an instance of its own component.
unfoldable pub act_in : Inside → Shown → Shown
act_in (in_stream a) (stream s) = stream (LiveEventStream.act a s)
act_in (in_browser a) (browser b) = browser (StateBrowser.act a b)
act_in (in_graph a) (graph g) = graph (Graphs.act a g)
act_in _ shown = shown

-- The flag says whether `new WebSocket` would throw.
unfoldable pub mounted : Bool → Component → Shown
mounted throws live_event_stream = stream (
    LiveEventStream.act (LiveEventStream.outside (UseWebSocket.mount throws))
      LiveEventStream.initial)
mounted throws state_browser = browser (StateBrowser.act StateBrowser.mount StateBrowser.initial)
mounted throws network_graph = graph (Graphs.act Graphs.mount Graphs.first_render)

unfoldable pub unmounted : Shown → Shown
unmounted (stream s) = stream (LiveEventStream.act (LiveEventStream.outside UseWebSocket.unmount) s)
unmounted (browser b) = browser (StateBrowser.act StateBrowser.unmount b)
unmounted (graph g) = graph (Graphs.act Graphs.unmount g)

pub record Site : Type 0 where
  pub app : App
  pub shown : Option Shown
  -- the unmounted instances, the last first
  pub gone : List Shown

-- `activeTool && ToolComponent`
abbrev pub tool_of : Page → Option Component
tool_of grid = none
tool_of (panel title c) = some c
tool_of blank = none

abbrev pub same_component : Component → Component → Bool
same_component live_event_stream live_event_stream = true
same_component state_browser state_browser = true
same_component network_graph network_graph = true
same_component _ _ = false

-- React keeps the instance where the component is the one that was rendered before; it unmounts the
-- one that is no longer rendered, and then mounts the new one.
unfoldable pub place :
    Bool → Option Component → Option Shown → List Shown → Option Shown × List Shown
unfolding mounted unmounted
place throws none none gone = (none, gone)
place throws none (some old) gone = (none, unmounted old ∷ gone)
place throws (some c) none gone = (some (mounted throws c), gone)
place throws (some c) (some old) gone =
    if same_component c (component_of old)
    then (some old, gone)
    else (some (mounted throws c), unmounted old ∷ gone)

-- The page is rendered.
unfoldable pub rendered : Bool → App → Site → Site
unfolding place page
rendered throws app s =
    let placed = place throws (tool_of (page app)) s.shown s.gone in
    record { app = app; shown = placed.0; gone = placed.1 }

unfoldable pub opened : Bool → String → Site
unfolding rendered
opened throws pathname =
    let app = App.initial pathname in
    rendered throws app (record { app = app; shown = none; gone = [] })

pub data Event : Type 0 where
  -- one of App.jsx's own
  navigate : Bool → App.Action → Event
  -- something happens to the instance on the page, or to one that has been left
  inside : Inside → Event
  late : ℕ → Inside → Event

unfoldable pub reach_shown : Inside → Option Shown → Option Shown
unfolding act_in
reach_shown x none = none
reach_shown x (some shown) = elim (origin x) [
  | by_react ↦ some shown
  | by_user ↦ some (act_in x shown)
  | by_browser ↦ some (act_in x shown)
]

unfoldable pub reach_gone : ℕ → Inside → List Shown → List Shown
unfolding act_in
reach_gone i x [] = []
reach_gone zero x (old ∷ gone) = elim (origin x) [
  | by_react ↦ old ∷ gone
  | by_user ↦ old ∷ gone
  | by_browser ↦ act_in x old ∷ gone
]
reach_gone (suc i) x (old ∷ gone) = old ∷ reach_gone i x gone

unfoldable pub step : Event → Site → Site
unfolding rendered reach_shown reach_gone
step (navigate throws a) s = rendered throws (App.act a s.app) s
step (inside x) s = record s { shown = reach_shown x s.shown }
step (late i x) s = record s { gone = reach_gone i x s.gone }

unfoldable pub run : List Event → Site → Site
unfolding step
run [] s = s
run (e ∷ es) s = run es (step e s)
