-- ===== src/UseWebSocket/Late.antt =====
-- A socket that is closed before it has opened fails: the browser reports an error for it after the
-- cleanup, which takes only `onclose` off.
use tabulum.Prelude.{
  suc, if◌then◌else◌, length, refl, ℕ, List, [], ◌∷◌, Option, none, some, true, false, ◌≡◌, arith,
}
use tabulum.UseWebSocket.Urls.{Filters}
use tabulum.UseWebSocket.Sockets.{Socket, find, drop_ref, is_closed}
use tabulum.UseWebSocket.State.{
  Hook, Event, Interval, render, mount, unmount, open_event, message, close_event, error_event,
  timeout, tick, reply, clear,
}
use tabulum.UseWebSocket.Handlers.{
  step, run, on_render, on_open, on_message, on_close, on_error, on_timeout, on_tick, on_reply,
  connect, start_polling, receive, cleanup, clear_interval, find_interval,
}

-- A socket that has been found, is not closed, and polls with the filters `f` if it fails.
abbrev FoundAlive : Filters → Option Socket → Type 0
FoundAlive f none = ⊥
FoundAlive f (some s) = (is_closed s.phase ≡ false) × (s.scope.filters ≡ f)

find-drop_ref :
    (f : Filters) (id : ℕ) (ss : List Socket)
    → FoundAlive f (find id ss)
    → FoundAlive f (find id (drop_ref ss))
unfolding find drop_ref
find-drop_ref f id [] p = p
find-drop_ref f id (u ∷ ss) p = ground arith

module _ {ℓ} {E : Type ℓ} where
  -- The component is not mounted again: React makes a new hook for a component that it mounts anew.
  abbrev pub StaysUnmounted : List (Event E) → Type 0
  StaysUnmounted [] = Unit
  StaysUnmounted (mount b ∷ es) = ⊥
  StaysUnmounted (e ∷ es) = StaysUnmounted es

  StaysUnmounted-split :
      (e : Event E) (es : List (Event E))
      → StaysUnmounted (e ∷ es)
      → StaysUnmounted (e ∷ []) × StaysUnmounted es
  StaysUnmounted-split (mount b) es u = absurd u
  StaysUnmounted-split (render b o) es u = (tt, u)
  StaysUnmounted-split unmount es u = (tt, u)
  StaysUnmounted-split (open_event id) es u = (tt, u)
  StaysUnmounted-split (message id m) es u = (tt, u)
  StaysUnmounted-split (close_event id) es u = (tt, u)
  StaysUnmounted-split (error_event id) es u = (tt, u)
  StaysUnmounted-split (timeout id b) es u = (tt, u)
  StaysUnmounted-split (tick id) es u = (tt, u)
  StaysUnmounted-split (reply id r) es u = (tt, u)
  StaysUnmounted-split clear es u = (tt, u)

  -- An unmounted hook in fallback mode, with the interval that its ref holds, the first of those.
  pub record IsLeftPolling (i : Interval) (is : List Interval) (h : Hook E) : Type 0 where
    pub mounted : h.mounted ≡ false
    pub fallback : h.fallback ≡ true
    pub ref : h.poll_interval ≡ some i.id
    pub intervals : h.intervals ≡ i ∷ is

  step-IsLeftPolling :
      (e : Event E) (i : Interval) (is : List Interval) (h : Hook E)
      → StaysUnmounted (e ∷ [])
      → IsLeftPolling i is h
      → IsLeftPolling i is (step e h)
  unfolding step on_render on_open on_message on_close on_error on_timeout on_tick on_reply connect
      start_polling receive
  step-IsLeftPolling (mount b) i is h u v = absurd u
  step-IsLeftPolling (render b o) i is h u v = ground arith
  step-IsLeftPolling unmount i is h u v = ground arith
  step-IsLeftPolling (open_event id) i is h u v = ground arith
  step-IsLeftPolling (message id m) i is h u v = ground arith
  step-IsLeftPolling (close_event id) i is h u v = ground arith
  step-IsLeftPolling (error_event id) i is h u v = ground arith
  step-IsLeftPolling (timeout id b) i is h u v = ground arith
  step-IsLeftPolling (tick id) i is h u v = ground arith
  step-IsLeftPolling (reply id r) i is h u v = ground arith
  step-IsLeftPolling clear i is h u v = ground arith

  run-IsLeftPolling :
      (es : List (Event E)) (i : Interval) (is : List Interval) (h : Hook E)
      → StaysUnmounted es
      → IsLeftPolling i is h
      → IsLeftPolling i is (run es h)
  unfolding run
  run-IsLeftPolling [] i is h u v = v
  run-IsLeftPolling (e ∷ es) i is h u v =
      let (here, rest) = StaysUnmounted-split e es u in
      run-IsLeftPolling es i is (step e h) rest (step-IsLeftPolling e i is h here v)

  failed-IsLeftPolling :
      (id : ℕ) (s : Socket) (h : Hook E)
      → h.mounted ≡ true
      → find id h.sockets ≡ some s
      → is_closed s.phase ≡ false
      → IsLeftPolling
          (record { id = h.next_id; filters = s.scope.filters })
          (clear_interval h.poll_interval h.intervals)
          (step (error_event id) (step unmount h))
  unfolding step on_error start_polling cleanup
  failed-IsLeftPolling id s h m e p =
      ground (arith, find-drop_ref s.scope.filters id h.sockets (rw e (p, refl)))

  -- A tick of that interval asks the server for events, unless the hook is paused.
  tick-polls :
      (i : Interval) (is : List Interval) (h : Hook E)
      → IsLeftPolling i is h
      → length (step (tick i.id) h).requests
        ≡ (if h.paused then length h.requests else suc (length h.requests))
  unfolding step on_tick find_interval
  tick-polls i is h v = ground arith

  -- A mounted hook is unmounted while a socket of its is not closed, and that socket then fails. After
  -- whatever happens next, as long as it is not mounted again, the hook is unmounted and has an interval
  -- for the socket's filters, beside those that the cleanup left, which nothing has cleared; and the next
  -- tick of that interval sends a poll, unless the hook is paused.
  pub late_error :
      (id : ℕ) (s : Socket) (es : List (Event E)) (h : Hook E)
      → h.mounted ≡ true
      → find id h.sockets ≡ some s
      → is_closed s.phase ≡ false
      → StaysUnmounted es
      → let later = run (unmount ∷ error_event id ∷ es) h in
        (later.mounted ≡ false)
        × (later.intervals
            ≡ record { id = h.next_id; filters = s.scope.filters }
              ∷ clear_interval h.poll_interval h.intervals)
        × (length (step (tick h.next_id) later).requests
            ≡ (if later.paused then length later.requests else suc (length later.requests)))
  unfolding run
  late_error id s es h m e p u =
      let i : Interval = record { id = h.next_id; filters = s.scope.filters } in
      let is = clear_interval h.poll_interval h.intervals in
      let later = run es (step (error_event id) (step unmount h)) in
      let v = run-IsLeftPolling es i is _ u (failed-IsLeftPolling id s h m e p) in
      (v.mounted, v.intervals, tick-polls i is later v)
