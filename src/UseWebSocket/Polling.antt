-- ===== src/UseWebSocket/Polling.antt =====
-- What a failing socket leaves behind: the hook polls, and shows itself as disconnected.
use tabulum.Prelude.{ℕ, List, [], ◌∷◌, Option, none, some, true, ◌≡◌, arith}
use tabulum.UseWebSocket.Sockets.{Socket, find, close_ws}
use tabulum.UseWebSocket.State.{Hook, Event, error_event, close_event, disconnected}
use tabulum.UseWebSocket.Handlers.{step, run, on_error, on_close, start_polling}
use tabulum.UseWebSocket.Links.{pending}

abbrev FoundPending : Option Socket → Type 0
FoundPending none = ⊥
FoundPending (some s) = pending s ≡ true

-- `ws.close()` takes no handler off.
find-close_ws :
    (id r : ℕ) (ss : List Socket)
    → FoundPending (find id ss)
    → FoundPending (find id (close_ws r ss))
unfolding find close_ws
find-close_ws id r [] p = p
find-close_ws id r (u ∷ ss) p = ground (arith, find-close_ws id r ss)

module _ {ℓ} {E : Type ℓ} where
  -- The socket `id` fails: the browser reports the error, then the close.
  abbrev pub failure : ℕ → List (Event E)
  failure id = error_event id ∷ close_event id ∷ []

  -- A socket whose `onclose` is still attached fails while no polling is on: the hook goes to
  -- fallback mode with an interval set, and its status ends as `disconnected`, not `polling`.
  pub failure-disconnected :
      (id : ℕ) (s : Socket) (h : Hook E)
      → find id h.sockets ≡ some s
      → pending s ≡ true
      → h.poll_interval ≡ none
      → ((run (failure id) h).fallback ≡ true)
        × ((run (failure id) h).poll_interval ≡ some h.next_id)
        × ((run (failure id) h).intervals
            ≡ record { id = h.next_id; filters = s.scope.filters } ∷ h.intervals)
        × ((run (failure id) h).status ≡ disconnected)
  unfolding run step on_error on_close start_polling
  failure-disconnected id s h e p n =
      ground (arith, find-close_ws id s.scope.run h.sockets (rw e p))
