-- ===== src/UseWebSocket/Stranded.antt =====
-- In fallback mode a change of the filters strands the feed: the cleanup stops the polling, and the
-- new run of the effect returns from `connect` at once.
use tabulum.Prelude.{
  ℕ, List, [], ◌∷◌, Option, none, some, Bool, true, false, ◌≡◌, refl, arith, Option-cases, inl, inr,
  ◌⊎◌,
}
use tabulum.UseWebSocket.State.{
  Hook, Event, render, mount, unmount, open_event, message, close_event, error_event, timeout, tick,
  reply, clear, Options,
}
use tabulum.UseWebSocket.Handlers.{
  remove_interval, find_request, find_interval, connect, on_open, on_message, on_close, on_error,
  on_timeout, on_tick, on_reply, cleanup, effect, on_render, step, run,
}
use tabulum.UseWebSocket.Urls.{same_deps}
use tabulum.UseWebSocket.Sockets.{Scope, Socket, closed, find, drop_ref}
use tabulum.UseWebSocket.Shape.{IsPolled}

abbrev pub AllClosed : List Socket → Type 0
AllClosed [] = Unit
AllClosed (s ∷ ss) = (s.phase ≡ closed) × AllClosed ss

find-AllClosed :
    (id : ℕ) (ss : List Socket) (s : Socket) → find id ss ≡ some s → AllClosed ss → s.phase ≡ closed
unfolding find
find-AllClosed id [] s e c = cc
find-AllClosed id (t ∷ ss) s e c = ground (arith, find-AllClosed id ss s)

find_closed :
    (id : ℕ) (ss : List Socket)
    → AllClosed ss
    → (find id ss ≡ none) ⊎ ((s : Socket) × (find id ss ≡ some s) × (s.phase ≡ closed))
find_closed id ss c = elim (Option-cases (find id ss)) [
  | inl e ↦ inl e
  | inr (s, e) ↦ inr (s, e, find-AllClosed id ss s e c)
]

drop_ref-AllClosed : (ss : List Socket) → AllClosed ss → AllClosed (drop_ref ss)
unfolding drop_ref
drop_ref-AllClosed [] c = tt
drop_ref-AllClosed (s ∷ ss) c = ground arith

module _ {ℓ} {E : Type ℓ} where
  -- Nothing is left that could bring an event in.
  pub record IsStranded (h : Hook E) : Type 0 where
    pub fallback : h.fallback ≡ true
    pub no_ref : h.poll_interval ≡ none
    pub no_interval : h.intervals ≡ []
    pub no_request : h.requests ≡ []
    pub all_closed : AllClosed h.sockets

  -- Only `clear` and the status of the hook's last change are left to see.
  abbrev pub Shows : Hook E → Hook E → Type ℓ
  Shows h h' = ((h'.events ≡ h.events) ⊎ (h'.events ≡ [])) × (h'.status ≡ h.status)

  connect-IsStranded :
      (b : Bool) (sc : Scope) (h : Hook E)
      → IsStranded h
      → IsStranded (connect b sc h) × Shows h (connect b sc h)
  unfolding connect
  connect-IsStranded b sc h v = ground arith

  cleanup-IsStranded : (h : Hook E) → IsStranded h → IsStranded (cleanup h) × Shows h (cleanup h)
  unfolding cleanup
  cleanup-IsStranded h v = ground (arith, drop_ref-AllClosed h.sockets)

  on_render-IsStranded :
      (b : Bool) (o : Options) (h : Hook E)
      → IsStranded h
      → IsStranded (on_render b o h) × Shows h (on_render b o h)
  unfolding on_render
  on_render-IsStranded b o h v =
      ground (arith, cleanup-IsStranded (record h { paused = o.paused }), connect-IsStranded b)

  on_socket-IsStranded :
      (id : ℕ) (m : Option E) (h : Hook E)
      → IsStranded h
      → (on_open id h ≡ h) × (on_message id m h ≡ h) × (on_close id h ≡ h) × (on_error id h ≡ h)
  unfolding on_open on_message on_close on_error
  on_socket-IsStranded id m h v = elim (find_closed id h.sockets v.all_closed) [
    | inl e ↦ rw (e, on_open, on_message, on_close, on_error) (refl, refl, refl, refl)
    | inr (s, e, c) ↦ rw (e, c, on_open, on_message, on_close, on_error) (refl, refl, refl, refl)
  ]

  step-IsStranded :
      (e : Event E) (h : Hook E) → IsStranded h → IsStranded (step e h) × Shows h (step e h)
  unfolding step effect
  step-IsStranded (render b o) h v = on_render-IsStranded b o h v
  step-IsStranded (mount b) h v = grind (arith, connect-IsStranded)
  step-IsStranded unmount h v = ground (arith, cleanup-IsStranded h)
  step-IsStranded (open_event id) h v =
      rw ((on_socket-IsStranded id none h v).0) (v, (inl refl, refl))
  step-IsStranded (message id m) h v = rw ((on_socket-IsStranded id m h v).1) (v, (inl refl, refl))
  step-IsStranded (close_event id) h v =
      rw ((on_socket-IsStranded id none h v).2) (v, (inl refl, refl))
  step-IsStranded (error_event id) h v =
      rw ((on_socket-IsStranded id none h v).3) (v, (inl refl, refl))
  step-IsStranded (timeout id b) h v = unfold on_timeout in ground arith
  step-IsStranded (tick id) h v = unfold on_tick find_interval in ground arith
  step-IsStranded (reply id r) h v = unfold on_reply find_request in ground arith
  step-IsStranded clear h v = ground arith

  Shows-trans : (h h' h'' : Hook E) → Shows h h' → Shows h' h'' → Shows h h''
  Shows-trans h h' h'' s t = ground arith

  run-IsStranded :
      (es : List (Event E)) (h : Hook E) → IsStranded h → IsStranded (run es h) × Shows h (run es h)
  unfolding run
  run-IsStranded [] h v = (v, (inl refl, refl))
  run-IsStranded (e ∷ es) h v =
      let (v', s) = step-IsStranded e h v in
      let (v'', t) = run-IsStranded es (step e h) v' in
      (v'', Shows-trans h (step e h) (run es (step e h)) s t)

  cleanup-clears :
      (h : Hook E) → IsPolled h → ((cleanup h).poll_interval ≡ none) × ((cleanup h).intervals ≡ [])
  unfolding cleanup remove_interval
  cleanup-clears h o = ground arith

  refilter-IsStranded :
      (b : Bool) (o : Options) (h : Hook E)
      → IsPolled h
      → h.mounted ≡ true
      → h.fallback ≡ true
      → h.requests ≡ []
      → AllClosed h.sockets
      → same_deps h.scope.path h.scope.filters o.path o.filters ≡ false
      → IsStranded (step (render b o) h) × Shows h (step (render b o) h)
  unfolding step on_render effect connect cleanup remove_interval
  refilter-IsStranded b o h v m f r c d = ground (arith, drop_ref-AllClosed h.sockets c)

-- Take a mounted hook in fallback mode, whose live intervals are the one that its ref holds or none,
-- with no poll in flight and every socket closed. Once it is rendered with other filters or another
-- path, whatever happens afterwards, it has no interval, no request and no open socket, its feed
-- stays what it was or is cleared, and its status is not changed.
pub refilter_strands {ℓ} :
    {E : Type ℓ} (b : Bool) (o : Options) (es : List (Event E)) (h : Hook E)
    → IsPolled h
    → h.mounted ≡ true
    → h.fallback ≡ true
    → h.requests ≡ []
    → AllClosed h.sockets
    → same_deps h.scope.path h.scope.filters o.path o.filters ≡ false
    → IsStranded (run es (step (render b o) h)) × Shows h (run es (step (render b o) h))
refilter_strands b o es h v m f r c d =
    let (stuck, s) = refilter-IsStranded b o h v m f r c d in
    let (final, t) = run-IsStranded es (step (render b o) h) stuck in
    (final, Shows-trans h (step (render b o) h) (run es (step (render b o) h)) s t)
