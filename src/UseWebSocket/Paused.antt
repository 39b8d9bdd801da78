-- ===== src/UseWebSocket/Paused.antt =====
-- Pausing freezes the feed.
use tabulum.Prelude.{
  ◌||◌, none, suc, not, if_cases, String, List, [], ◌∷◌, Bool, true, ◌≡◌, refl, arith, ◌∙◌, ℕ,
}
use tabulum.UseWebSocket.State.{
  Hook, Event, render, message, reply, clear, mount, unmount, open_event, close_event, error_event,
  timeout, tick, Options,
}
use tabulum.UseWebSocket.Handlers.{
  run, step, connect, cleanup, effect, on_render, on_open, on_message, on_close, on_error,
  on_timeout, on_tick, start_polling,
}
use tabulum.UseWebSocket.Sockets.{Scope}
use tabulum.UseWebSocket.Urls.{Filters, same_deps}

module _ {ℓ} {E : Type ℓ} where
  -- The hook stays paused, nothing clears the feed, and no poll that was sent before comes back.
  abbrev pub Undisturbed : List (Event E) → Type 0
  Undisturbed [] = Unit
  Undisturbed (render b o ∷ es) = (o.paused ≡ true) × Undisturbed es
  Undisturbed (reply id r ∷ es) = ⊥
  Undisturbed (clear ∷ es) = ⊥
  Undisturbed (e ∷ es) = Undisturbed es

  -- What pausing promises of a later state: the same feed, and no poll in flight that was not.
  abbrev pub Frozen : Hook E → Hook E → Type ℓ
  Frozen h h' =
      (h'.events ≡ h.events)
      × (h'.requests ≡ h.requests)
      × (h'.poll_cursor ≡ h.poll_cursor)
      × (h'.paused ≡ true)

  connect-Frozen :
      (b : Bool) (sc : Scope) (h : Hook E) → h.paused ≡ true → Frozen h (connect b sc h)
  unfolding connect
  connect-Frozen b sc h p = ground arith

  effect-Frozen :
      (b : Bool) (path : String) (f : Filters) (h : Hook E)
      → h.paused ≡ true
      → Frozen h (effect b path f h)
  unfolding effect
  effect-Frozen b path f h p =
      let sc : Scope = record { run = suc h.scope.run; path = path; filters = f } in
      connect-Frozen b sc (record h { scope = sc; reconnect_timer = none; mounted = true }) p

  pub on_render-Frozen :
      (b : Bool) (o : Options) (h : Hook E) → o.paused ≡ true → Frozen h (on_render b o h)
  unfolding on_render cleanup
  on_render-Frozen b o h p =
      let h' : Hook E = record h { paused = o.paused } in
      if_cases (λ g. Frozen h g)
        (not h.mounted || same_deps h.scope.path h.scope.filters o.path o.filters)
        (λ _. (refl, refl, refl, p)) (λ _. effect-Frozen b o.path o.filters (cleanup h') p)

  on_error-Frozen : (id : ℕ) (h : Hook E) → h.paused ≡ true → Frozen h (on_error id h)
  unfolding on_error start_polling
  on_error-Frozen id h p = ground arith

  on_timeout-Frozen :
      (id : ℕ) (b : Bool) (h : Hook E) → h.paused ≡ true → Frozen h (on_timeout id b h)
  unfolding on_timeout connect
  on_timeout-Frozen id b h p = ground arith

  pub step-Frozen :
      (e : Event E) (h : Hook E) → h.paused ≡ true → Undisturbed (e ∷ []) → Frozen h (step e h)
  unfolding step effect cleanup on_open on_message on_close on_tick
  step-Frozen (render b o) h p u = on_render-Frozen b o h u.0
  step-Frozen (mount b) h p u = grind (arith, connect-Frozen)
  step-Frozen unmount h p u = ground arith
  step-Frozen (open_event id) h p u = ground arith
  step-Frozen (message id m) h p u = ground arith
  step-Frozen (close_event id) h p u = ground arith
  step-Frozen (error_event id) h p u = on_error-Frozen id h p
  step-Frozen (timeout id b) h p u = on_timeout-Frozen id b h p
  step-Frozen (tick id) h p u = ground arith
  step-Frozen (reply id r) h p u = absurd u
  step-Frozen clear h p u = absurd u

  pub Undisturbed-split :
      (e : Event E) (es : List (Event E))
      → Undisturbed (e ∷ es)
      → Undisturbed (e ∷ []) × Undisturbed es
  Undisturbed-split (render b o) es u = ((u.0, tt), u.1)
  Undisturbed-split (reply id r) es u = absurd u
  Undisturbed-split clear es u = absurd u
  Undisturbed-split (mount b) es u = (tt, u)
  Undisturbed-split unmount es u = (tt, u)
  Undisturbed-split (open_event id) es u = (tt, u)
  Undisturbed-split (message id m) es u = (tt, u)
  Undisturbed-split (close_event id) es u = (tt, u)
  Undisturbed-split (error_event id) es u = (tt, u)
  Undisturbed-split (timeout id b) es u = (tt, u)
  Undisturbed-split (tick id) es u = (tt, u)

pub run_stays {ℓ} :
    {E : Type ℓ} (es : List (Event E)) (h : Hook E)
    → h.paused ≡ true
    → Undisturbed es
    → Frozen h (run es h)
unfolding run
run_stays [] h p u = (refl, refl, refl, p)
run_stays (e ∷ es) h p u =
    let (first, rest) = Undisturbed-split e es u in
    let (a, b, c, d) = step-Frozen e h p first in
    let (a', b', c', d') = run_stays es (step e h) d rest in (a' ∙ a, b' ∙ b, c' ∙ c, d')

events-on_render {ℓ} :
    {E : Type ℓ} (b : Bool) (o : Options) (h : Hook E) → (on_render b o h).events ≡ h.events
unfolding on_render effect cleanup connect start_polling
events-on_render b o h = ground arith

-- While the hook is paused, nothing but `clear` and the replies to polls sent before the pause
-- touches the feed: no message and no tick adds an event, sends a poll or moves the cursor. The
-- messages of the pause are not kept anywhere: the render that resumes the hook, with any options,
-- leaves the feed as it was when the pause began.
pub run-Frozen {ℓ} :
    {E : Type ℓ} (es : List (Event E)) (h : Hook E)
    → h.paused ≡ true
    → Undisturbed es
    → Frozen h (run es h)
      × ((b : Bool) (o : Options) → (step (render b o) (run es h)).events ≡ h.events)
unfolding step
run-Frozen es h p u =
    let frozen = run_stays es h p u in (frozen, λ b o. events-on_render b o (run es h) ∙ frozen.0)
