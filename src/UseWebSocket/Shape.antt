-- ===== src/UseWebSocket/Shape.antt =====
-- One interval at most is live, and it is the one that `pollIntervalRef` holds.
use tabulum.Prelude.{ℕ, List, [], ◌∷◌, Option, none, some, Bool, true, ◌≡◌, arith}
use tabulum.UseWebSocket.Urls.{Filters}
use tabulum.UseWebSocket.Sockets.{Scope}
use tabulum.UseWebSocket.State.{
  Interval, Hook, Event, render, mount, unmount, open_event, message, close_event, error_event,
  timeout, tick, reply, clear, Reply, Options, initial,
}
use tabulum.UseWebSocket.Handlers.{
  remove_interval, start_polling, connect, on_open, on_message, on_close, on_error, on_timeout,
  on_tick, receive, on_reply, cleanup, effect, on_render, step, run,
}

-- The live intervals are the one that the ref holds, and polling goes with the fallback mode.
abbrev pub Owned : Option ℕ → Bool → List Interval → Type 0
Owned none fb [] = Unit
Owned none fb (i ∷ is) = ⊥
Owned (some id) fb [] = ⊥
Owned (some id) fb (i ∷ []) = (i.id ≡ id) × (fb ≡ true)
Owned (some id) fb (i ∷ j ∷ is) = ⊥

module _ {ℓ} {E : Type ℓ} where
  abbrev pub IsPolled : Hook E → Type 0
  IsPolled h = Owned h.poll_interval h.fallback h.intervals

  start-IsPolled :
      (f : Filters) (h : Hook E)
      → IsPolled h
      → IsPolled (start_polling f h) × ((start_polling f h).fallback ≡ true)
  unfolding start_polling
  start-IsPolled f h o = ground arith

  connect-IsPolled : (b : Bool) (sc : Scope) (h : Hook E) → IsPolled h → IsPolled (connect b sc h)
  unfolding connect
  connect-IsPolled b sc h o = ground arith

  cleanup-IsPolled : (h : Hook E) → IsPolled h → IsPolled (cleanup h)
  unfolding cleanup remove_interval
  cleanup-IsPolled h o = ground arith

  receive-IsPolled : (r : Reply E) (h : Hook E) → IsPolled h → IsPolled (receive r h)
  unfolding receive
  receive-IsPolled r h o = ground arith

  on_open-IsPolled : (id : ℕ) (h : Hook E) → IsPolled h → IsPolled (on_open id h)
  unfolding on_open
  on_open-IsPolled id h o = ground arith

  on_message-IsPolled :
      (id : ℕ) (m : Option E) (h : Hook E) → IsPolled h → IsPolled (on_message id m h)
  unfolding on_message
  on_message-IsPolled id m h o = ground arith

  on_close-IsPolled : (id : ℕ) (h : Hook E) → IsPolled h → IsPolled (on_close id h)
  unfolding on_close
  on_close-IsPolled id h o = ground arith

  on_error-IsPolled : (id : ℕ) (h : Hook E) → IsPolled h → IsPolled (on_error id h)
  unfolding on_error start_polling
  on_error-IsPolled id h o = ground arith

  on_timeout-IsPolled : (id : ℕ) (b : Bool) (h : Hook E) → IsPolled h → IsPolled (on_timeout id b h)
  unfolding on_timeout connect
  on_timeout-IsPolled id b h o = ground arith

  on_tick-IsPolled : (id : ℕ) (h : Hook E) → IsPolled h → IsPolled (on_tick id h)
  unfolding on_tick
  on_tick-IsPolled id h o = ground arith

  on_reply-IsPolled : (id : ℕ) (r : Reply E) (h : Hook E) → IsPolled h → IsPolled (on_reply id r h)
  unfolding on_reply
  on_reply-IsPolled id r h o = ground arith

  on_render-IsPolled :
      (b : Bool) (o : Options) (h : Hook E) → IsPolled h → IsPolled (on_render b o h)
  unfolding on_render connect cleanup remove_interval
  on_render-IsPolled b o h v = ground arith

  -- Every event keeps the one interval and its ref in step.
  pub step-IsPolled : (e : Event E) (h : Hook E) → IsPolled h → IsPolled (step e h)
  unfolding step effect
  step-IsPolled (render b o) h v = on_render-IsPolled b o h v
  step-IsPolled (mount b) h v = grind (arith, connect-IsPolled)
  step-IsPolled unmount h v = ground (arith, cleanup-IsPolled h)
  step-IsPolled (open_event id) h v = on_open-IsPolled id h v
  step-IsPolled (message id m) h v = on_message-IsPolled id m h v
  step-IsPolled (close_event id) h v = on_close-IsPolled id h v
  step-IsPolled (error_event id) h v = on_error-IsPolled id h v
  step-IsPolled (timeout id b) h v = on_timeout-IsPolled id b h v
  step-IsPolled (tick id) h v = on_tick-IsPolled id h v
  step-IsPolled (reply id r) h v = on_reply-IsPolled id r h v
  step-IsPolled clear h v = v

  pub run-IsPolled : (es : List (Event E)) (h : Hook E) → IsPolled h → IsPolled (run es h)
  unfolding run
  run-IsPolled [] h v = v
  run-IsPolled (e ∷ es) h v = run-IsPolled es (step e h) (step-IsPolled e h v)

-- After any events since the first render, the live intervals are exactly the one that
-- `pollIntervalRef` holds, or none if it holds none; and while it holds one the hook is in
-- fallback mode.
pub run-initial-IsPolled {ℓ} :
    {E : Type ℓ} (es : List (Event E)) (o : Options) → IsPolled (run es (initial o))
run-initial-IsPolled es o = run-IsPolled es (initial o) (unfold initial in tt)
