-- ===== src/UseWebSocket/Links.antt =====
-- The link to the server: at most one socket or one timeout of the running effect is in charge of
-- it, and it is given up only for polling.
use tabulum.Prelude.{ℕ, List, [], ◌∷◌, Option, some, Bool, true, false, ◌&&◌, not, ◌≡◌, arith}
use tabulum.UseWebSocket.Sockets.{
  Phase, opened, closed, Socket, is_closed, find, set_phase, close_ws, drop_ref,
}
use tabulum.UseWebSocket.State.{Timer}
use tabulum.UseWebSocket.Handlers.{run}

-- The socket's `onclose` is still to come.
abbrev pub pending : Socket → Bool
pending s = s.heard && not (is_closed s.phase)

abbrev pub Quiet : List Socket → Type 0
Quiet [] = Unit
Quiet (s ∷ ss) = (pending s ≡ false) × Quiet ss

-- Only the newest socket can be pending, and it is the running effect's; while a timeout is set
-- none is pending, and the timeout is the one that the effect's `reconnectTimer` names.
abbrev pub Links : ℕ → Bool → Option ℕ → List Timer → List Socket → Type 0
Links run mounted timer [] [] = Unit
Links run mounted timer [] (s ∷ ss) =
    (pending s ≡ true → (s.scope.run ≡ run) × (mounted ≡ true)) × Quiet ss
Links run mounted timer (t ∷ []) ss =
    (t.scope.run ≡ run) × (timer ≡ some t.id) × (mounted ≡ true) × Quiet ss
Links run mounted timer (t ∷ u ∷ ts) ss = ⊥

-- Something will bring the link up: a pending socket or a timeout.
abbrev pub Busy : List Timer → List Socket → Type 0
Busy [] [] = ⊥
Busy [] (s ∷ ss) = pending s ≡ true
Busy (t ∷ ts) ss = Unit

pub find-Quiet :
    (id : ℕ) (ss : List Socket) (s : Socket) → find id ss ≡ some s → Quiet ss → pending s ≡ false
unfolding find
find-Quiet id [] s e q = cc
find-Quiet id (t ∷ ss) s e q = ground (arith, find-Quiet id ss s)

pub Quiet-set_phase :
    (id : ℕ) (p : Phase) (ss : List Socket) (s : Socket)
    → find id ss ≡ some s
    → is_closed s.phase ≡ false
    → Quiet ss
    → Quiet (set_phase id p ss)
unfolding find set_phase
Quiet-set_phase id p [] s e n q = tt
Quiet-set_phase id p (t ∷ ss) s e n q = ground (arith, Quiet-set_phase id p ss s)

pub Quiet-set_closed : (id : ℕ) (ss : List Socket) → Quiet ss → Quiet (set_phase id closed ss)
unfolding set_phase
Quiet-set_closed id [] q = tt
Quiet-set_closed id (t ∷ ss) q = ground (arith, Quiet-set_closed id ss)

pub Quiet-close_ws : (r : ℕ) (ss : List Socket) → Quiet ss → Quiet (close_ws r ss)
unfolding close_ws
Quiet-close_ws r [] q = tt
Quiet-close_ws r (s ∷ ss) q = ground (arith, Quiet-close_ws r ss)

pub Quiet-drop_ref : (ss : List Socket) → Quiet ss → Quiet (drop_ref ss)
unfolding drop_ref
Quiet-drop_ref [] q = tt
Quiet-drop_ref (s ∷ ss) q = ground arith

-- What a change of phase does to the links, for every part that the links are about.
module _ (r : ℕ) (m : Bool) (timer : Option ℕ) (id : ℕ) where
  pub Links-opened :
      (ts : List Timer) (ss : List Socket) (s : Socket)
      → find id ss ≡ some s
      → is_closed s.phase ≡ false
      → Links r m timer ts ss
      → Links r m timer ts (set_phase id opened ss)
  unfolding find set_phase
  Links-opened [] [] s e n l = tt
  Links-opened [] (t ∷ ss) s e n l = ground (arith, Quiet-set_phase id opened ss s)
  Links-opened (u ∷ []) ss s e n l = ground (arith, Quiet-set_phase id opened ss s)
  Links-opened (u ∷ v ∷ ts) ss s e n l = l

  pub Links-closed :
      (ts : List Timer) (ss : List Socket)
      → Links r m timer ts ss
      → Links r m timer ts (set_phase id closed ss)
  unfolding set_phase
  Links-closed [] [] l = tt
  Links-closed [] (t ∷ ss) l = ground (arith, Quiet-set_closed id ss)
  Links-closed (u ∷ []) ss l = ground (arith, Quiet-set_closed id ss)
  Links-closed (u ∷ v ∷ ts) ss l = l

  -- A socket whose `onclose` is called is the newest one, of the running effect.
  pub Links-heard :
      (ts : List Timer) (ss : List Socket) (s : Socket)
      → find id ss ≡ some s
      → pending s ≡ true
      → Links r m timer ts ss
      → (ts ≡ []) × (s.scope.run ≡ r) × (m ≡ true) × Quiet (set_phase id closed ss)
  unfolding find set_phase
  Links-heard [] [] s e n l = cc
  Links-heard [] (t ∷ ss) s e n l = ground (arith, Quiet-set_closed id ss, find-Quiet id ss s)
  Links-heard (u ∷ []) ss s e n l = ground (arith, find-Quiet id ss s)
  Links-heard (u ∷ v ∷ ts) ss s e n l = absurd l

pub Busy-opened :
    (id : ℕ) (ts : List Timer) (ss : List Socket) (s : Socket)
    → find id ss ≡ some s
    → is_closed s.phase ≡ false
    → Busy ts ss
    → Busy ts (set_phase id opened ss)
unfolding find set_phase
Busy-opened id [] [] s e n b = b
Busy-opened id [] (t ∷ ss) s e n b = ground arith
Busy-opened id (u ∷ ts) ss s e n b = tt

-- Closing a socket whose handler has been taken off leaves the pending one alone.
pub Busy-closed :
    (id : ℕ) (ts : List Timer) (ss : List Socket) (s : Socket)
    → find id ss ≡ some s
    → s.heard ≡ false
    → Busy ts ss
    → Busy ts (set_phase id closed ss)
unfolding find set_phase
Busy-closed id [] [] s e n b = b
Busy-closed id [] (t ∷ ss) s e n b = ground arith
Busy-closed id (u ∷ ts) ss s e n b = tt

pub Links-close_ws :
    (r : ℕ) (m : Bool) (timer : Option ℕ) (q : ℕ) (ts : List Timer) (ss : List Socket)
    → Links r m timer ts ss
    → Links r m timer ts (close_ws q ss)
unfolding close_ws
Links-close_ws r m timer q [] [] l = tt
Links-close_ws r m timer q [] (t ∷ ss) l = ground (arith, Quiet-close_ws q ss)
Links-close_ws r m timer q (u ∷ []) ss l = ground (arith, Quiet-close_ws q ss)
Links-close_ws r m timer q (u ∷ v ∷ ts) ss l = l
