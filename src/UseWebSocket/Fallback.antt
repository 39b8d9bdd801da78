-- ===== src/UseWebSocket/Fallback.antt =====
-- Fallback mode: it is never left, and a change of the filters in it strands the feed.
use tabulum.Prelude.{◌||◌, not, ℕ, List, [], ◌∷◌, Bool, true, ◌≡◌, refl, arith, if_cases, length}
use tabulum.UseWebSocket.State.{
  Hook, Event, render, mount, unmount, open_event, message, close_event, error_event, timeout, tick,
  reply, clear, Options,
}
use tabulum.UseWebSocket.Handlers.{
  start_polling, connect, on_open, on_message, on_close, on_error, on_timeout, on_tick, on_reply,
  cleanup, effect, on_render, step, run,
}
use tabulum.UseWebSocket.Urls.{same_deps}
use tabulum.UseWebSocket.Sockets.{Scope, Socket, Phase, set_phase, close_ws, drop_ref}

length-set_phase : (id : ℕ) (p : Phase) (ss : List Socket) → length (set_phase id p ss) ≡ length ss
unfolding set_phase
length-set_phase id p [] = refl
length-set_phase id p (s ∷ ss) = ground (arith, length-set_phase id p ss)

length-close_ws : (r : ℕ) (ss : List Socket) → length (close_ws r ss) ≡ length ss
unfolding close_ws
length-close_ws r [] = refl
length-close_ws r (s ∷ ss) = ground (arith, length-close_ws r ss)

length-drop_ref : (ss : List Socket) → length (drop_ref ss) ≡ length ss
unfolding drop_ref
length-drop_ref [] = refl
length-drop_ref (s ∷ ss) = refl

module _ {ℓ} {E : Type ℓ} where
  -- Fallback mode stays, and no socket is opened in it.
  record IsSettled (n : ℕ) (h : Hook E) : Type 0 where
    fallback : h.fallback ≡ true
    opened : length h.sockets ≡ n

  connect-IsSettled :
      (n : ℕ) (b : Bool) (sc : Scope) (h : Hook E) → IsSettled n h → IsSettled n (connect b sc h)
  unfolding connect
  connect-IsSettled n b sc h v = ground arith

  cleanup-IsSettled : (n : ℕ) (h : Hook E) → IsSettled n h → IsSettled n (cleanup h)
  unfolding cleanup
  cleanup-IsSettled n h v = ground (arith, length-drop_ref h.sockets)

  on_render-IsSettled :
      (n : ℕ) (b : Bool) (o : Options) (h : Hook E) → IsSettled n h → IsSettled n (on_render b o h)
  unfolding on_render
  on_render-IsSettled n b o h v =
      let h' : Hook E = record h { paused = o.paused } in
      let old : IsSettled n h' = record { fallback = v.fallback; opened = v.opened } in
      let kept = cleanup-IsSettled n h' old in
      if_cases (IsSettled n)
        (not h.mounted || same_deps h.scope.path h.scope.filters o.path o.filters) (λ _. old)
        (λ _. connect-IsSettled n b _ _ (record { fallback = kept.fallback; opened = kept.opened }))

  step-IsSettled : (n : ℕ) (e : Event E) (h : Hook E) → IsSettled n h → IsSettled n (step e h)
  unfolding step effect on_open on_message on_close on_error start_polling on_timeout on_tick
      on_reply
  step-IsSettled n (render b o) h v = on_render-IsSettled n b o h v
  step-IsSettled n (mount b) h v = grind (arith, connect-IsSettled)
  step-IsSettled n unmount h v = ground (arith, cleanup-IsSettled n h)
  step-IsSettled n (open_event id) h v = grind (arith, length-set_phase)
  step-IsSettled n (message id m) h v = ground arith
  step-IsSettled n (close_event id) h v = grind (arith, length-set_phase)
  step-IsSettled n (error_event id) h v = grind (arith, length-close_ws)
  step-IsSettled n (timeout id b) h v = grind (arith, connect-IsSettled)
  step-IsSettled n (tick id) h v = ground arith
  step-IsSettled n (reply id r) h v = ground arith
  step-IsSettled n clear h v = ground arith

  run-IsSettled :
      (n : ℕ) (es : List (Event E)) (h : Hook E) → IsSettled n h → IsSettled n (run es h)
  unfolding run
  run-IsSettled n [] h v = v
  run-IsSettled n (e ∷ es) h v = run-IsSettled n es (step e h) (step-IsSettled n e h v)

-- Fallback mode is never left, and the hook opens no socket in it, whatever happens.
pub fallback-run {ℓ} :
    {E : Type ℓ} (es : List (Event E)) (h : Hook E)
    → h.fallback ≡ true
    → ((run es h).fallback ≡ true) × (length (run es h).sockets ≡ length h.sockets)
fallback-run es h f =
    let v = run-IsSettled (length h.sockets) es h (record { fallback = f; opened = refl }) in
    (v.fallback, v.opened)
