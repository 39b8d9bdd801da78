-- ===== src/UseWebSocket/Handlers.antt =====
-- The callbacks of useWebSocket.js, each as a function of the hook's state.
use tabulum.Prelude.{
  ℕ, suc, String, List, [], ◌∷◌, ◌++◌, reverse, Option, none, some, Bool, true, false, ◌&&◌, ◌||◌,
  not, if◌then◌else◌, ◌==◌, take,
}
use tabulum.UseWebSocket.Urls.{Filters, build_url, poll_url, same_deps}
use tabulum.UseWebSocket.Sockets.{
  Scope, opening, opened, closed, is_closed, is_opened, is_opening, find, set_phase, close_ws,
  drop_ref,
}
use tabulum.UseWebSocket.State.{
  connecting, connected, disconnected, polling, Timer, Interval, Request, Reply, thrown, refused,
  body, Options, Hook, Event, render, mount, unmount, open_event, message, close_event, error_event,
  timeout, tick, reply, clear, max_events,
}

unfoldable pub remove_timer : ℕ → List Timer → List Timer
remove_timer id [] = []
remove_timer id (t ∷ ts) = if t.id == id then ts else t ∷ remove_timer id ts

unfoldable pub find_timer : ℕ → List Timer → Option Timer
find_timer id [] = none
find_timer id (t ∷ ts) = if t.id == id then some t else find_timer id ts

unfoldable pub remove_interval : ℕ → List Interval → List Interval
remove_interval id [] = []
remove_interval id (t ∷ ts) = if t.id == id then ts else t ∷ remove_interval id ts

unfoldable pub find_interval : ℕ → List Interval → Option Interval
find_interval id [] = none
find_interval id (t ∷ ts) = if t.id == id then some t else find_interval id ts

unfoldable pub remove_request : ℕ → List Request → List Request
remove_request id [] = []
remove_request id (t ∷ ts) = if t.id == id then ts else t ∷ remove_request id ts

unfoldable pub find_request : ℕ → List Request → Option Request
find_request id [] = none
find_request id (t ∷ ts) = if t.id == id then some t else find_request id ts

-- `clearTimeout(id)` and `clearInterval(id)`, which ignore undefined and null
abbrev pub clear_timeout : Option ℕ → List Timer → List Timer
clear_timeout none ts = ts
clear_timeout (some id) ts = remove_timer id ts

abbrev pub clear_interval : Option ℕ → List Interval → List Interval
clear_interval none ts = ts
clear_interval (some id) ts = remove_interval id ts

-- `data.next_cursor || pollCursorRef.current`
abbrev pub or_cursor : Option ℕ → ℕ → ℕ
or_cursor none c = c
or_cursor (some n) c = if n == 0 then c else n

module _ {ℓ} {E : Type ℓ} where
  -- `startPolling`, closed over its filters
  unfoldable pub start_polling : Filters → Hook E → Hook E
  start_polling f h = elim h.poll_interval [
    | some id ↦ h
    | none ↦ record h {
      fallback = true;
      status = polling;
      poll_interval = some h.next_id;
      intervals = record { id = h.next_id; filters = f } ∷ h.intervals;
      next_id = suc h.next_id;
    }
  ]

  open_socket : Scope → Hook E → Hook E
  unfolding build_url
  open_socket sc h = record h {
    sockets =
        record {
          id = h.next_id;
          scope = sc;
          url = build_url sc.path sc.filters;
          phase = opening;
          heard = true;
        }
        ∷ h.sockets;
    next_id = suc h.next_id;
  }

  unfoldable pub connect : Bool → Scope → Hook E → Hook E
  unfolding open_socket start_polling
  connect throws sc h =
      if h.fallback
      then h
      else if throws
      then start_polling sc.filters (record h { status = connecting })
      else open_socket sc (record h { status = connecting })

  unfoldable pub on_open : ℕ → Hook E → Hook E
  on_open id h = elim (find id h.sockets) [
    | none ↦ h
    | some s ↦
        if is_opening s.phase
        then record h { status = connected; sockets = set_phase id opened h.sockets }
        else h
  ]

  -- `setEvents(prev => [event, ...prev].slice(0, 500))`, unless paused or not JSON
  push_event : Option E → Hook E → Hook E
  push_event none h = h
  push_event (some e) h = record h { events = take max_events (e ∷ h.events) }

  unfoldable pub on_message : ℕ → Option E → Hook E → Hook E
  unfolding push_event
  on_message id parsed h = elim (find id h.sockets) [
    | none ↦ h
    | some s ↦ if is_opened s.phase && not h.paused then push_event parsed h else h
  ]

  -- `reconnectTimer = setTimeout(…, 3000)`; the variable of an earlier run is never read again.
  schedule : Scope → Hook E → Hook E
  schedule sc h = record h {
    status = disconnected;
    timers = record { id = h.next_id; scope = sc } ∷ h.timers;
    reconnect_timer = if sc.run == h.scope.run then some h.next_id else h.reconnect_timer;
    next_id = suc h.next_id;
  }

  unfoldable pub on_close : ℕ → Hook E → Hook E
  unfolding schedule
  on_close id h = elim (find id h.sockets) [
    | none ↦ h
    | some s ↦
        if is_closed s.phase
        then h
        else if s.heard
        then schedule s.scope (record h { sockets = set_phase id closed h.sockets })
        else record h { sockets = set_phase id closed h.sockets }
  ]

  unfoldable pub on_error : ℕ → Hook E → Hook E
  on_error id h = elim (find id h.sockets) [
    | none ↦ h
    | some s ↦
        if is_closed s.phase
        then h
        else start_polling s.scope.filters (record h { sockets = close_ws s.scope.run h.sockets })
  ]

  -- the callback of `setTimeout`
  unfoldable pub on_timeout : ℕ → Bool → Hook E → Hook E
  on_timeout id throws h = elim (find_timer id h.timers) [
    | none ↦ h
    | some t ↦
        if h.fallback
        then record h { timers = remove_timer id h.timers }
        else connect throws t.scope (record h { timers = remove_timer id h.timers })
  ]

  -- the callback of `setInterval`, up to its `await fetch`
  unfoldable pub on_tick : ℕ → Hook E → Hook E
  unfolding poll_url
  on_tick id h = elim (find_interval id h.intervals) [
    | none ↦ h
    | some i ↦ if h.paused then h else record h {
      requests = record { id = h.next_id; url = poll_url h.poll_cursor i.filters } ∷ h.requests;
      next_id = suc h.next_id;
    }
  ]

  -- the rest of that callback
  unfoldable pub receive : Reply E → Hook E → Hook E
  receive thrown h = h
  receive refused h = h
  receive (body none next) h = h
  receive (body (some []) next) h = h
  receive (body (some (e ∷ es)) next) h = record h {
    events = take max_events (reverse (e ∷ es) ++ h.events);
    poll_cursor = or_cursor next h.poll_cursor;
  }

  unfoldable pub on_reply : ℕ → Reply E → Hook E → Hook E
  unfolding receive
  on_reply id r h = elim (find_request id h.requests) [
    | none ↦ h
    | some q ↦ receive r (record h { requests = remove_request id h.requests })
  ]

  -- what the effect returns
  unfoldable pub cleanup : Hook E → Hook E
  unfolding drop_ref
  cleanup h = record h {
    timers = clear_timeout h.reconnect_timer h.timers;
    intervals = clear_interval h.poll_interval h.intervals;
    poll_interval = none;
    sockets = drop_ref h.sockets;
  }

  -- a new run of the effect
  unfoldable pub effect : Bool → String → Filters → Hook E → Hook E
  unfolding connect
  effect throws path f h =
      let sc : Scope = record { run = suc h.scope.run; path = path; filters = f } in
      connect throws sc (record h { scope = sc; reconnect_timer = none; mounted = true })

  -- A render stores `paused`; the effect runs again if a dependency of its callbacks has changed.
  unfoldable pub on_render : Bool → Options → Hook E → Hook E
  unfolding same_deps cleanup effect
  on_render throws o h =
      let h' : Hook E = record h { paused = o.paused } in
      if not h.mounted || same_deps h.scope.path h.scope.filters o.path o.filters
      then h'
      else effect throws o.path o.filters (cleanup h')

  unfoldable pub step : Event E → Hook E → Hook E
  step (render throws o) h = on_render throws o h
  step (mount throws) h = if h.mounted then h else effect throws h.scope.path h.scope.filters h
  step unmount h = if h.mounted then record (cleanup h) { mounted = false } else h
  step (open_event id) h = on_open id h
  step (message id parsed) h = on_message id parsed h
  step (close_event id) h = on_close id h
  step (error_event id) h = on_error id h
  step (timeout id throws) h = on_timeout id throws h
  step (tick id) h = on_tick id h
  step (reply id r) h = on_reply id r h
  step clear h = record h { events = [] }

  unfoldable pub run : List (Event E) → Hook E → Hook E
  run [] h = h
  run (e ∷ es) h = run es (step e h)
