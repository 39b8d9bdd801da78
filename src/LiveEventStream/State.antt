-- ===== src/LiveEventStream/State.antt =====
-- The state of LiveEventStream.jsx and its event handlers.
use tabulum.Prelude.{
  ℕ, String, List, [], ◌∷◌, Option, some, Bool, true, false, not, if◌then◌else◌, ◌==◌, non_empty,
  length,
}
use tabulum.LiveEventStream.Selection.{Kind, event_types, toggle_type, type_list}
use tabulum.UseWebSocket

-- The fields of an event's `data` that the component reads, and the JSON text of the whole.
pub record Details : Type 0 where
  pub to : Option String
  pub key : Option String
  pub json : String

pub record FeedEvent : Type 0 where
  pub seq : ℕ
  pub ts : String
  pub type : Option String
  pub agent : Option String
  pub details : Option Details

pub record Stream : Type 0 where
  pub paused : Bool
  pub auto_scroll : Bool
  pub type_filters : List Kind
  pub agent_filter : String
  -- `feedRef.current.scrollTop`
  pub scroll_top : ℕ
  -- the state of `useWebSocket`
  pub hook : UseWebSocket.Hook FeedEvent

-- A flag tells whether `new WebSocket` would throw, if the render opens one.
pub data Action : Type 0 where
  toggle : Bool → Kind → Action
  agent : Bool → String → Action
  pause : Bool → Action
  auto : Bool → Action
  -- the user scrolls the feed
  scroll : ℕ → Action
  clear : Action
  -- an event of the hook's own: a socket, a timer, a reply, mounting
  outside : UseWebSocket.Event FeedEvent → Action

unfoldable pub options_of : List Kind → String → Bool → UseWebSocket.Options
unfolding type_list
options_of types address paused = record {
  path = "/observe/events/stream";
  filters = record { types = some (type_list types); agent = non_empty address };
  paused = paused;
}

unfoldable pub initial : Stream
unfolding options_of UseWebSocket.initial
initial = record {
  paused = false;
  auto_scroll = true;
  type_filters = event_types;
  agent_filter = "";
  scroll_top = 0;
  hook = UseWebSocket.initial (options_of event_types "" false);
}

-- A change of the component's state renders it, and with it the hook.
unfoldable pub rerender : Bool → Stream → Stream
unfolding options_of
rerender throws s = record s {
  hook =
      UseWebSocket.step
        (UseWebSocket.render throws (options_of s.type_filters s.agent_filter s.paused)) s.hook;
}

-- The effect on `[events.length, autoScroll]`.
unfoldable pub scrolled : Stream → Stream → Stream
scrolled before s =
    if length before.hook.events == length s.hook.events
    then s
    else if s.auto_scroll
    then record s { scroll_top = 0 }
    else s

unfoldable pub act : Action → Stream → Stream
unfolding rerender toggle_type scrolled
act (toggle throws k) s = rerender throws (record s { type_filters = toggle_type k s.type_filters })
act (agent throws a) s = rerender throws (record s { agent_filter = a })
act (pause throws) s = rerender throws (record s { paused = not s.paused })
act (auto on) s = record s { auto_scroll = on; scroll_top = if on then 0 else s.scroll_top }
act (scroll n) s = record s { scroll_top = n }
act clear s = scrolled s (record s { hook = UseWebSocket.step UseWebSocket.clear s.hook })
act (outside e) s = scrolled s (record s { hook = UseWebSocket.step e s.hook })

unfoldable pub run : List Action → Stream → Stream
run [] s = s
run (a ∷ more) s = run more (act a s)
