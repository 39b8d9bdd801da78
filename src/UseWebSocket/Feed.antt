-- ===== src/UseWebSocket/Feed.antt =====
-- The feed that the hook shows is the newest part of all that it has been sent.
use tabulum.Prelude.{
  not, ◌&&◌, ◌∙◌, ◌≢◌, if◌then◌else◌, ℕ, List, [], ◌∷◌, ◌++◌, reverse, Option, none, some, Bool,
  true, false, ◌≡◌, refl, arith, Option-cases, inl, inr, take, take-append-take,
}
use tabulum.UseWebSocket.State.{
  Hook, Event, render, mount, unmount, open_event, message, close_event, error_event, timeout, tick,
  reply, clear, Reply, thrown, refused, body, Options, initial, max_events,
}
use tabulum.UseWebSocket.Handlers.{
  find_request, start_polling, connect, on_open, on_message, on_close, on_error, on_timeout,
  on_tick, receive, on_reply, cleanup, effect, on_render, step, run,
}
use tabulum.UseWebSocket.Sockets.{is_opened, Scope, find}

-- Putting `xs` in front of a cut list, and cutting again.
take_push {ℓ} :
    {A : Type ℓ} (n : ℕ) (xs ys log : List A)
    → ys ≡ take n log
    → take n (xs ++ ys) ≡ take n (xs ++ log)
take_push n xs ys log e = rw e (take-append-take n n xs log (omega arith))

module _ {ℓ} {E : Type ℓ} where
  -- What an event adds to the feed, newest first: the message of an open socket while the hook is
  -- not paused, or the events of the body that a poll in flight comes back with.
  arrivals_of_reply : Reply E → List E
  arrivals_of_reply thrown = []
  arrivals_of_reply refused = []
  arrivals_of_reply (body none next) = []
  arrivals_of_reply (body (some es) next) = reverse es

  delivered : Event E → Hook E → List E
  unfolding arrivals_of_reply
  delivered (message id (some e)) h = elim (find id h.sockets) [
    | none ↦ []
    | some s ↦ if is_opened s.phase && not h.paused then e ∷ [] else []
  ]
  delivered (reply id r) h = elim (find_request id h.requests) [
    | none ↦ []
    | some q ↦ arrivals_of_reply r
  ]
  delivered e h = []

  -- All that has arrived since the last `clear`, newest first.
  pub history : List (Event E) → Hook E → List E → List E
  unfolding delivered
  history [] h log = log
  history (clear ∷ es) h log = history es (step clear h) []
  history (e ∷ es) h log = history es (step e h) (delivered e h ++ log)

  module _ (h : Hook E) where
    events-connect : (b : Bool) (sc : Scope) → (connect b sc h).events ≡ h.events
    unfolding connect
    events-connect b sc = ground arith

    events-pushed :
        (x : E) (log : List E)
        → h.events ≡ take max_events log
        → (b : Bool)
        → (if b then record h { events = take max_events (x ∷ h.events) } else h).events
          ≡ take max_events ((if b then x ∷ [] else []) ++ log)
    events-pushed x log e true = take_push max_events (x ∷ []) h.events log e
    events-pushed x log e false = e

    events-on_message :
        (id : ℕ) (m : Option E) (log : List E)
        → h.events ≡ take max_events log
        → (on_message id m h).events ≡ take max_events (delivered (message id m) h ++ log)
    unfolding on_message delivered
    events-on_message id none log e = ground arith
    events-on_message id (some x) log e = elim (Option-cases (find id h.sockets)) [
      | inl lost ↦ rw (lost, on_message, delivered) e
      | inr (s, found) ↦
          rw (found, on_message, delivered)
            (events-pushed x log e (is_opened s.phase && not h.paused))
    ]

    events-on_reply :
        (id : ℕ) (r : Reply E) (log : List E)
        → h.events ≡ take max_events log
        → (on_reply id r h).events ≡ take max_events (delivered (reply id r) h ++ log)
    unfolding on_reply receive delivered
    events-on_reply id thrown log e = ground arith
    events-on_reply id refused log e = ground arith
    events-on_reply id (body none c) log e = ground arith
    events-on_reply id (body (some []) c) log e = ground arith
    events-on_reply id (body (some (x ∷ xs)) c) log e =
        ground (arith, take_push max_events (reverse (x ∷ xs)) h.events log e)

  -- Every other event leaves the feed alone.
  events-on_render : (b : Bool) (o : Options) (h : Hook E) → (on_render b o h).events ≡ h.events
  unfolding on_render cleanup connect
  events-on_render b o h = ground arith

  events-on_error : (id : ℕ) (h : Hook E) → (on_error id h).events ≡ h.events
  unfolding on_error start_polling
  events-on_error id h = ground arith

  events-on_timeout : (id : ℕ) (b : Bool) (h : Hook E) → (on_timeout id b h).events ≡ h.events
  unfolding on_timeout connect
  events-on_timeout id b h = ground arith

  events-step :
      (e : Event E) (h : Hook E) (log : List E)
      → h.events ≡ take max_events log
      → e ≢ clear
      → (step e h).events ≡ take max_events (delivered e h ++ log)
  unfolding step delivered effect cleanup on_open on_close on_tick
  events-step (render b o) h log p n = events-on_render b o h ∙ p
  events-step (mount b) h log p n = grind (arith, events-connect)
  events-step unmount h log p n = ground arith
  events-step (open_event id) h log p n = ground arith
  events-step (message id m) h log p n = events-on_message h id m log p
  events-step (close_event id) h log p n = ground arith
  events-step (error_event id) h log p n = events-on_error id h ∙ p
  events-step (timeout id b) h log p n = events-on_timeout id b h ∙ p
  events-step (tick id) h log p n = ground arith
  events-step (reply id r) h log p n = events-on_reply h id r log p
  events-step clear h log p n = absurd (n refl)

  events-run :
      (es : List (Event E)) (h : Hook E) (log : List E)
      → h.events ≡ take max_events log
      → (run es h).events ≡ take max_events (history es h log)
  unfolding run history
  events-run [] h log p = p
  events-run (render b o ∷ es) h log p =
      events-run es _ _ (events-step (render b o) h log p (λ e. cc))
  events-run (mount b ∷ es) h log p = events-run es _ _ (events-step (mount b) h log p (λ e. cc))
  events-run (unmount ∷ es) h log p = events-run es _ _ (events-step unmount h log p (λ e. cc))
  events-run (open_event id ∷ es) h log p =
      events-run es _ _ (events-step (open_event id) h log p (λ e. cc))
  events-run (message id m ∷ es) h log p =
      events-run es _ _ (events-step (message id m) h log p (λ e. cc))
  events-run (close_event id ∷ es) h log p =
      events-run es _ _ (events-step (close_event id) h log p (λ e. cc))
  events-run (error_event id ∷ es) h log p =
      events-run es _ _ (events-step (error_event id) h log p (λ e. cc))
  events-run (timeout id b ∷ es) h log p =
      events-run es _ _ (events-step (timeout id b) h log p (λ e. cc))
  events-run (tick id ∷ es) h log p = events-run es _ _ (events-step (tick id) h log p (λ e. cc))
  events-run (reply id r ∷ es) h log p =
      events-run es _ _ (events-step (reply id r) h log p (λ e. cc))
  events-run (clear ∷ es) h log p = events-run es _ [] (unfold step in refl)

-- The feed holds, newest first, the last 500 of the events that have arrived since `clear` was last
-- called: the messages that came over an open socket while the hook was not paused, and the bodies
-- of the polls, each in the reverse of the order that the server sent. A message that comes over a
-- socket during a pause is in none of these, then or after the hook has been resumed.
pub events-run-initial {ℓ} :
    {E : Type ℓ} (es : List (Event E)) (o : Options)
    → (run es (initial {E = E} o)).events ≡ take max_events (history es (initial o) [])
unfolding initial
events-run-initial es o = events-run es (initial o) [] refl
