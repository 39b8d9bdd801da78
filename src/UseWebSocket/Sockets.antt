-- ===== src/UseWebSocket/Sockets.antt =====
-- The sockets that the hook has opened, newest first, so that the head is `wsRef.current`.
use tabulum.Prelude.{
  ℕ, String, List, [], ◌∷◌, Option, none, some, Bool, true, false, if◌then◌else◌, ◌==◌,
}
use tabulum.UseWebSocket.Urls.{Filters, Url}

-- One run of the effect: its number, and what its callbacks closed over.
pub record Scope : Type 0 where
  pub run : ℕ
  pub path : String
  pub filters : Filters

-- `readyState`
pub data Phase : Type 0 where
  opening opened closing closed : Phase

pub record Socket : Type 0 where
  pub id : ℕ
  pub scope : Scope
  pub url : Url
  pub phase : Phase
  -- whether `onclose` is still the handler, and not null
  pub heard : Bool

abbrev pub is_closed : Phase → Bool
is_closed closed = true
is_closed opening = false
is_closed opened = false
is_closed closing = false

abbrev pub is_opened : Phase → Bool
is_opened opened = true
is_opened opening = false
is_opened closing = false
is_opened closed = false

abbrev pub is_opening : Phase → Bool
is_opening opening = true
is_opening opened = false
is_opening closing = false
is_opening closed = false

-- `close()`: a closed socket stays closed.
abbrev pub shut : Phase → Phase
shut closed = closed
shut opening = closing
shut opened = closing
shut closing = closing

unfoldable pub find : ℕ → List Socket → Option Socket
find id [] = none
find id (s ∷ ss) = if s.id == id then some s else find id ss

unfoldable pub set_phase : ℕ → Phase → List Socket → List Socket
set_phase id p [] = []
set_phase id p (s ∷ ss) = if s.id == id then record s { phase = p } ∷ ss else s ∷ set_phase id p ss

-- `ws.close()`, where `ws` is the last socket that this run of the effect has made
unfoldable pub close_ws : ℕ → List Socket → List Socket
close_ws run [] = []
close_ws run (s ∷ ss) =
    if s.scope.run == run then record s { phase = shut s.phase } ∷ ss else s ∷ close_ws run ss

-- `wsRef.current.onclose = null; wsRef.current.close()`
unfoldable pub drop_ref : List Socket → List Socket
drop_ref [] = []
drop_ref (s ∷ ss) = record s { phase = shut s.phase; heard = false } ∷ ss
