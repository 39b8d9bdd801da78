-- ===== src/UseWebSocket/Tests.antt =====
-- Runs of useWebSocket.js, and its theorems at concrete sessions.
use tabulum.Prelude.{
  suc, if◌then◌else◌, Bool, String, List, [], ◌∷◌, none, some, true, false, ◌≡◌, refl, length, take,
}
use tabulum.UseWebSocket.Urls.{build_url, same_deps}
use tabulum.UseWebSocket.Sockets.{opening, Socket, find, set_phase, close_ws, drop_ref}
use tabulum.UseWebSocket.State.{
  unmount, Hook, Event, render, mount, open_event, message, close_event, error_event, timeout, tick,
  reply, body, Options, initial, connected, disconnected, max_events,
}
use tabulum.UseWebSocket.Handlers.{
  on_render, effect, on_reply, on_tick, on_timeout, on_error, on_close, on_message, on_open, run,
  step, remove_timer, find_timer, find_interval, find_request, remove_request, remove_interval,
}
use tabulum.UseWebSocket.Shape.{run-initial-IsPolled}
use tabulum.UseWebSocket.Reconnect.{IsLinked, run-initial-IsLinked}
use tabulum.UseWebSocket.Feed.{history, events-run-initial}
use tabulum.UseWebSocket.Paused.{Frozen, run-Frozen}
use tabulum.UseWebSocket.Polling.{failure, failure-disconnected}
use tabulum.UseWebSocket.Late.{late_error}
use tabulum.UseWebSocket.Stranded.{IsStranded, Shows, refilter_strands}

machine : Unit {0}
unfolding run step initial find set_phase close_ws drop_ref remove_timer find_timer find_interval
    find_request remove_request remove_interval build_url same_deps on_open on_message on_close
    on_error on_timeout on_tick on_reply effect on_render
machine = tt

abbrev stream : Options
stream = record {
  path = "/observe/events/stream";
  filters = record { types = some []; agent = none };
  paused = false;
}

abbrev narrowed : Options
narrowed = record stream { filters = record { types = some ("message_sent" ∷ []); agent = none } }

abbrev start : Hook String
start = initial stream

-- The socket drops once and the hook reconnects.
abbrev dropped : List (Event String)
dropped =
    mount false
    ∷ open_event 1
    ∷ message 1 (some "a")
    ∷ close_event 1
    ∷ timeout 2 false
    ∷ open_event 3
    ∷ message 3 (some "b")
    ∷ message 3 none
    ∷ []

dropped_feed :
    ((run dropped start).events ≡ "b" ∷ "a" ∷ []) × ((run dropped start).status ≡ connected)
unfolding machine
dropped_feed = (refl, refl)

-- The socket fails and the hook polls.
abbrev failed : List (Event String)
failed =
    mount false
    ∷ open_event 1
    ∷ message 1 (some "a")
    ∷ error_event 1
    ∷ close_event 1
    ∷ tick 2
    ∷ reply 4 (body (some ("b" ∷ "c" ∷ [])) (some 9))
    ∷ []

failed_feed :
    ((run failed start).events ≡ "c" ∷ "b" ∷ "a" ∷ [])
    × ((run failed start).poll_cursor ≡ 9)
    × ((run failed start).status ≡ disconnected)
unfolding machine
failed_feed = (refl, refl, refl)

narrowed_url : (build_url "/s" narrowed.filters).query ≡ ("type", "message_sent") ∷ []
unfolding machine
narrowed_url = refl

run-initial-IsLinked_example : IsLinked (run dropped start)
run-initial-IsLinked_example = run-initial-IsLinked dropped stream

events-run-initial_example : (run dropped start).events ≡ take max_events (history dropped start [])
events-run-initial_example = events-run-initial dropped stream

abbrev held : Hook String
held = record start { paused = true }

abbrev during_pause : List (Event String)
during_pause = mount false ∷ open_event 1 ∷ message 1 (some "a") ∷ []

run-Frozen_example :
    Frozen held (run during_pause held)
    × ((b : Bool) (o : Options) → (step (render b o) (run during_pause held)).events ≡ held.events)
unfolding machine
run-Frozen_example = run-Frozen during_pause held refl tt

refilter_strands_example :
    IsStranded
      (run (tick 2 ∷ timeout 3 false ∷ []) (step (render false narrowed) (run failed start)))
    × Shows
        (run failed start)
        (run (tick 2 ∷ timeout 3 false ∷ []) (step (render false narrowed) (run failed start)))
unfolding machine
refilter_strands_example =
    refilter_strands false narrowed (tick 2 ∷ timeout 3 false ∷ []) (run failed start)
      (run-initial-IsPolled failed stream) refl refl refl (refl, tt) refl

-- The first socket of the stream, before it has opened.
abbrev first_socket : Socket
first_socket = record {
  id = 1;
  scope = record { run = 1; path = stream.path; filters = stream.filters };
  url = build_url stream.path stream.filters;
  phase = opening;
  heard = true;
}

failure-disconnected_example :
    ((run (failure 1) (step (mount false) start)).fallback ≡ true)
    × ((run (failure 1) (step (mount false) start)).poll_interval ≡ some 2)
    × ((run (failure 1) (step (mount false) start)).intervals
        ≡ record { id = 2; filters = stream.filters } ∷ [])
    × ((run (failure 1) (step (mount false) start)).status ≡ disconnected)
unfolding machine
failure-disconnected_example =
    failure-disconnected 1 first_socket (step (mount false) start) refl refl refl

abbrev afterwards : List (Event String)
afterwards = tick 2 ∷ close_event 1 ∷ unmount ∷ []

late_error_example :
    let later = run (unmount ∷ error_event 1 ∷ afterwards) (step (mount false) start) in
    (later.mounted ≡ false)
    × (later.intervals ≡ record { id = 2; filters = stream.filters } ∷ [])
    × (length (step (tick 2) later).requests
        ≡ (if later.paused then length later.requests else suc (length later.requests)))
unfolding machine
late_error_example =
    late_error 1 first_socket afterwards (step (mount false) start) refl refl refl tt

-- The interval of the unmounted hook goes on sending polls.
late_polls :
    length
      (run (unmount ∷ error_event 1 ∷ tick 2 ∷ tick 2 ∷ []) (step (mount false) start)).requests
    ≡ 2
unfolding machine
late_polls = refl
