-- ===== src/LiveEventStream/Tests.antt =====
-- Runs of LiveEventStream.jsx, and its theorems at concrete sessions.
use tabulum.Prelude.{◌++◌, List, [], ◌∷◌, none, some, false, ◌≡◌, refl}
use tabulum.UseWebSocket
use tabulum.UseWebSocket.Urls.{type_param}
use tabulum.UseWebSocket.Sockets.{Socket, opened, find}
use tabulum.LiveEventStream.Selection.{
  agent_registered, message_sent, state_written, state_deleted, has, delete, toggle_type, type_list,
  event_types,
}
use tabulum.LiveEventStream.State.{
  FeedEvent, Stream, Action, toggle, scroll, outside, initial, act, run, rerender, options_of,
}
use tabulum.LiveEventStream.View.{rows, row, notice, checkboxes}
use tabulum.LiveEventStream.Requests.{address, none_is_all}

all : Unit {0}
unfolding act run initial rerender options_of toggle_type has delete type_list rows row notice
    checkboxes UseWebSocket.run UseWebSocket.step UseWebSocket.initial UseWebSocket.on_open
    UseWebSocket.on_message UseWebSocket.on_render UseWebSocket.Urls.same_deps find
    UseWebSocket.Sockets.set_phase
all = tt

abbrev sent : FeedEvent
sent = record {
  seq = 7;
  ts = "t";
  type = some "message_sent";
  agent = none;
  details = some (record { to = some "tab_1"; key = none; json = "{}" });
}

abbrev live : List Action
live =
    outside (UseWebSocket.mount false)
    ∷ outside (UseWebSocket.open_event 1)
    ∷ outside (UseWebSocket.message 1 (some sent))
    ∷ []

page :
    (rows (λ t. none) (run live initial)
      ≡ record {
        time = "t";
        color = some "var(--event-message)";
        label = some "message sent";
        agent = "—";
        details = "→ tab_1";
      }
        ∷ [])
    × (notice initial ≡ some "Connecting...")
unfolding all
page = (refl, refl)

abbrev cleared : List Action
cleared =
    toggle false agent_registered
    ∷ toggle false message_sent
    ∷ toggle false state_written
    ∷ toggle false state_deleted
    ∷ []

none_is_all_example :
    address (run cleared initial)
    ≡ address (record (run cleared initial) { type_filters = event_types })
unfolding all
none_is_all_example = none_is_all cleared (refl, refl, refl, refl)

abbrev reading : Stream
reading = run (live ++ scroll 40 ∷ []) initial
