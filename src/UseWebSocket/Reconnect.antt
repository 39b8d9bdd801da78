-- ===== src/UseWebSocket/Reconnect.antt =====
-- The link is given up only for polling: while the hook is mounted and not in fallback mode, a socket
-- or a timeout will bring it up.
use tabulum.Prelude.{
  if_cases, ◌||◌, String, ℕ, List, [], ◌∷◌, Option, none, some, Bool, true, false, not, ◌≡◌, refl,
  arith, Bool-cases, Option-cases, inl, inr,
}
use tabulum.UseWebSocket.Urls.{same_deps, Filters}
use tabulum.UseWebSocket.Sockets.{Scope, Socket, is_closed, find, drop_ref}
use tabulum.UseWebSocket.State.{
  Timer, Hook, Event, render, mount, unmount, open_event, message, close_event, error_event,
  timeout, tick, reply, clear, Reply, Options, initial,
}
use tabulum.UseWebSocket.Handlers.{
  remove_interval, clear_timeout, remove_timer, find_timer, start_polling, connect, on_open,
  on_message, on_close, on_error, on_timeout, on_tick, on_reply, cleanup, effect, on_render, step,
  run,
}
use tabulum.UseWebSocket.Shape.{IsPolled}
use tabulum.UseWebSocket.Links.{
  pending, Quiet, Links, Busy, Links-opened, Links-closed, Links-heard, Busy-opened, Busy-closed,
  Links-close_ws,
}

Links-nil :
    (r : ℕ) (m : Bool) (timer : Option ℕ) (ts : List Timer) (ss : List Socket)
    → ts ≡ []
    → Quiet ss
    → Links r m timer ts ss
Links-nil r m timer [] [] e q = tt
Links-nil r m timer [] (s ∷ ss) e q = ground arith
Links-nil r m timer (t ∷ ts) ss e q = cc

-- A timeout that fires is the only one, set by the running effect.
Links-fired :
    (r : ℕ) (m : Bool) (timer : Option ℕ) (id : ℕ) (ts : List Timer) (ss : List Socket) (t : Timer)
    → find_timer id ts ≡ some t
    → Links r m timer ts ss
    → (remove_timer id ts ≡ []) × (t.scope.run ≡ r) × (m ≡ true) × Quiet ss
unfolding find_timer remove_timer
Links-fired r m timer id [] ss t e l = cc
Links-fired r m timer id (u ∷ []) ss t e l = ground arith
Links-fired r m timer id (u ∷ v ∷ ts) ss t e l = absurd l

-- An unmounted hook has no timeout and no socket that would be heard.
pub Links-unmounted :
    (r : ℕ) (m : Bool) (timer : Option ℕ) (ts : List Timer) (ss : List Socket)
    → m ≡ false
    → Links r m timer ts ss
    → (ts ≡ []) × Quiet ss
Links-unmounted r m timer [] [] e l = (refl, tt)
Links-unmounted r m timer [] (s ∷ ss) e l = ground (arith, Bool-cases (pending s))
Links-unmounted r m timer (u ∷ []) ss e l = ground arith
Links-unmounted r m timer (u ∷ v ∷ ts) ss e l = absurd l

-- What the effect's cleanup leaves: no timeout, and no socket that would be heard.
Links-cleared :
    (r : ℕ) (m : Bool) (timer : Option ℕ) (ts : List Timer) (ss : List Socket)
    → Links r m timer ts ss
    → (clear_timeout timer ts ≡ []) × Quiet (drop_ref ss)
unfolding remove_timer drop_ref
Links-cleared r m none [] [] l = (refl, tt)
Links-cleared r m (some id) [] [] l = (refl, tt)
Links-cleared r m none [] (s ∷ ss) l = ground arith
Links-cleared r m (some id) [] (s ∷ ss) l = ground arith
Links-cleared r m timer (u ∷ []) [] l = ground arith
Links-cleared r m timer (u ∷ []) (s ∷ ss) l = ground arith
Links-cleared r m timer (u ∷ v ∷ ts) ss l = absurd l

module _ {ℓ} {E : Type ℓ} where
  pub record IsLinked (h : Hook E) : Type 0 where
    pub polled : IsPolled h
    pub links : Links h.scope.run h.mounted h.reconnect_timer h.timers h.sockets
    pub busy : h.mounted ≡ true → h.fallback ≡ false → Busy h.timers h.sockets

  start-Links :
      (f : Filters) (h : Hook E)
      → Links h.scope.run h.mounted h.reconnect_timer h.timers h.sockets
      → IsPolled h
      → IsLinked (start_polling f h)
  unfolding start_polling
  start-Links f h l o = ground arith

  on_open-IsLinked : (id : ℕ) (h : Hook E) → IsLinked h → IsLinked (on_open id h)
  unfolding on_open
  on_open-IsLinked id h v = elim (Option-cases (find id h.sockets)) [
    | inl e ↦ rw (e, on_open) v
    | inr (s, e) ↦ ground (
      arith,
      Links-opened h.scope.run h.mounted h.reconnect_timer id h.timers h.sockets s,
      Busy-opened id h.timers h.sockets s,
    )
  ]

  on_message-IsLinked :
      (id : ℕ) (m : Option E) (h : Hook E) → IsLinked h → IsLinked (on_message id m h)
  unfolding on_message
  on_message-IsLinked id m h v = ground arith

  on_tick-IsLinked : (id : ℕ) (h : Hook E) → IsLinked h → IsLinked (on_tick id h)
  unfolding on_tick
  on_tick-IsLinked id h v = ground arith

  on_reply-IsLinked : (id : ℕ) (r : Reply E) (h : Hook E) → IsLinked h → IsLinked (on_reply id r h)
  unfolding on_reply
  on_reply-IsLinked id r h v = ground arith

  on_error-IsLinked : (id : ℕ) (h : Hook E) → IsLinked h → IsLinked (on_error id h)
  unfolding on_error
  on_error-IsLinked id h v = elim (Option-cases (find id h.sockets)) [
    | inl e ↦ rw (e, on_error) v
    | inr (s, e) ↦ elim (Bool-cases (is_closed s.phase)) [
      | inl c ↦ rw (e, c, on_error) v
      | inr c ↦
          rw (e, c, on_error)
            (start-Links s.scope.filters _
              (Links-close_ws h.scope.run h.mounted h.reconnect_timer s.scope.run h.timers h.sockets
                v.links)
              v.polled)
    ]
  ]

  on_close-IsLinked : (id : ℕ) (h : Hook E) → IsLinked h → IsLinked (on_close id h)
  unfolding on_close
  on_close-IsLinked id h v = elim (Option-cases (find id h.sockets)) [
    | inl e ↦ rw (e, on_close) v
    | inr (s, e) ↦ ground (
      arith,
      Links-closed h.scope.run h.mounted h.reconnect_timer id h.timers h.sockets v.links,
      Links-heard h.scope.run h.mounted h.reconnect_timer id h.timers h.sockets s e,
      Busy-closed id h.timers h.sockets s e,
    )
  ]

  connect-IsLinked :
      (b : Bool) (sc : Scope) (h : Hook E)
      → IsPolled h
      → h.timers ≡ []
      → h.mounted ≡ true
      → sc.run ≡ h.scope.run
      → Quiet h.sockets
      → IsLinked (connect b sc h)
  unfolding connect
  connect-IsLinked b sc h o t m r q =
      ground (arith, Links-nil h.scope.run h.mounted h.reconnect_timer h.timers h.sockets t q)

  cleanup-Quiet :
      (h : Hook E)
      → IsLinked h
      → IsPolled (cleanup h) × ((cleanup h).timers ≡ []) × Quiet (cleanup h).sockets
  unfolding cleanup remove_interval
  cleanup-Quiet h v =
      ground
        (arith, Links-cleared h.scope.run h.mounted h.reconnect_timer h.timers h.sockets v.links)

  on_timeout-IsLinked : (id : ℕ) (b : Bool) (h : Hook E) → IsLinked h → IsLinked (on_timeout id b h)
  unfolding on_timeout
  on_timeout-IsLinked id b h v = elim (Option-cases (find_timer id h.timers)) [
    | inl e ↦ rw (e, on_timeout) v
    | inr (t, e) ↦
        let fired =
          Links-fired h.scope.run h.mounted h.reconnect_timer id h.timers h.sockets t e v.links in
        ground (
          arith,
          fired,
          Links-nil h.scope.run h.mounted h.reconnect_timer (remove_timer id h.timers) h.sockets,
          connect-IsLinked b t.scope (record h { timers = remove_timer id h.timers }),
        )
  ]

  -- The effect, run again after its cleanup.
  effect-IsLinked :
      (b : Bool) (p : String) (f : Filters) (h : Hook E)
      → IsPolled h
      → h.timers ≡ []
      → Quiet h.sockets
      → IsLinked (effect b p f h)
  unfolding effect
  effect-IsLinked b p f h o t q = connect-IsLinked b _ _ o t refl refl q

  on_render-IsLinked :
      (b : Bool) (o : Options) (h : Hook E) → IsLinked h → IsLinked (on_render b o h)
  unfolding on_render
  on_render-IsLinked b o h v =
      let h' : Hook E = record h { paused = o.paused } in
      let old : IsLinked h' = record { polled = v.polled; links = v.links; busy = v.busy } in
      let (polled, none_set, quiet) = cleanup-Quiet h' old in
      if_cases IsLinked (not h.mounted || same_deps h.scope.path h.scope.filters o.path o.filters)
        (λ _. old) (λ _. effect-IsLinked b o.path o.filters (cleanup h') polled none_set quiet)

  mount-IsLinked : (b : Bool) (h : Hook E) → IsLinked h → IsLinked (step (mount b) h)
  unfolding step
  mount-IsLinked b h v =
      if_cases IsLinked h.mounted (λ _. v)
        λ m.
          let (none_set, quiet) = Links-unmounted _ _ _ _ _ m v.links in
          effect-IsLinked b h.scope.path h.scope.filters h v.polled none_set quiet

  unmount-IsLinked : (h : Hook E) → IsLinked h → IsLinked (step unmount h)
  unfolding step
  unmount-IsLinked h v =
      let (polled, none_set, quiet) = cleanup-Quiet h v in
      let links = Links-nil _ false (cleanup h).reconnect_timer _ _ none_set quiet in
      if_cases IsLinked h.mounted (λ _. record { polled = polled; links = links; busy = λ e. cc })
        (λ _. v)

  -- Every event keeps the link in charge.
  pub step-IsLinked : (e : Event E) (h : Hook E) → IsLinked h → IsLinked (step e h)
  unfolding step
  step-IsLinked (render b o) h v = on_render-IsLinked b o h v
  step-IsLinked (mount b) h v = mount-IsLinked b h v
  step-IsLinked unmount h v = unmount-IsLinked h v
  step-IsLinked (open_event id) h v = on_open-IsLinked id h v
  step-IsLinked (message id m) h v = on_message-IsLinked id m h v
  step-IsLinked (close_event id) h v = on_close-IsLinked id h v
  step-IsLinked (error_event id) h v = on_error-IsLinked id h v
  step-IsLinked (timeout id b) h v = on_timeout-IsLinked id b h v
  step-IsLinked (tick id) h v = on_tick-IsLinked id h v
  step-IsLinked (reply id r) h v = on_reply-IsLinked id r h v
  step-IsLinked clear h v = record { polled = v.polled; links = v.links; busy = v.busy }

  pub run-IsLinked : (es : List (Event E)) (h : Hook E) → IsLinked h → IsLinked (run es h)
  unfolding run
  run-IsLinked [] h v = v
  run-IsLinked (e ∷ es) h v = run-IsLinked es (step e h) (step-IsLinked e h v)

  pub initial-IsLinked : (o : Options) → IsLinked (initial {E = E} o)
  unfolding initial
  initial-IsLinked o = ground arith

-- After any events since the first render, at most one socket or timeout is in charge of the link:
-- no socket but the newest has an `onclose` still to come, the newest only if it belongs to the
-- running effect of a mounted hook, and while a timeout is set no socket has one. A hook that is
-- mounted and not in fallback mode has such a socket or timeout.
pub run-initial-IsLinked {ℓ} :
    {E : Type ℓ} (es : List (Event E)) (o : Options) → IsLinked (run es (initial o))
run-initial-IsLinked es o = run-IsLinked es (initial o) (initial-IsLinked o)
