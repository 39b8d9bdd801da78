-- ===== src/UsePolling/Stale.antt =====
-- Replies to requests that are no longer wanted.
use tabulum.Prelude.{◌∙◌, ℕ, List, [], ◌∷◌, some, true, false, ◌≡◌, refl, arith}
use tabulum.UsePolling.State.{
  Options, json, Task, Hook, Event, mount, unmount, render, tick, reply, refetch, same_deps,
}
use tabulum.UsePolling.Handlers.{find, on_reply, effect, cleanup, on_render, on_tick, step, run}
use tabulum.UsePolling.Loading.{Same}
use tabulum.UsePolling.Ticking.{IsTicking, Live-none}

module _ {ℓ} {J : Type ℓ} where
  -- `mountedRef` is false again after the cleanup of an enabled effect; from there on, until the
  -- next mount or render runs the effect, nothing that the hook shows changes.
  abbrev pub Unmounted : List (Event J) → Type 0
  Unmounted [] = Unit
  Unmounted (mount ∷ es) = ⊥
  Unmounted (e ∷ es) = Unmounted es

  Unmounted-split :
      (e : Event J) (es : List (Event J)) → Unmounted (e ∷ es) → Unmounted (e ∷ []) × Unmounted es
  Unmounted-split mount es u = absurd u
  Unmounted-split unmount es u = (tt, u)
  Unmounted-split (render o) es u = (tt, u)
  Unmounted-split (tick id) es u = (tt, u)
  Unmounted-split (reply id r) es u = (tt, u)
  Unmounted-split refetch es u = (tt, u)

  step-quiet :
      (e : Event J) (h : Hook J)
      → h.mounted ≡ false
      → h.attached ≡ false
      → Unmounted (e ∷ [])
      → Same h (step e h) × ((step e h).mounted ≡ false) × ((step e h).attached ≡ false)
  unfolding step on_reply on_tick on_render
  step-quiet e h m a u = ground arith

  run-quiet :
      (es : List (Event J)) (h : Hook J)
      → h.mounted ≡ false
      → h.attached ≡ false
      → Unmounted es
      → Same h (run es h)
  unfolding run
  run-quiet [] h m a u = (refl, refl, refl)
  run-quiet (e ∷ es) h m a u =
      let (here, rest) = Unmounted-split e es u in
      let (same, m', a') = step-quiet e h m a here in
      let later = run-quiet es (step e h) m' a' rest in
      (later.0 ∙ same.0, later.1 ∙ same.1, later.2 ∙ same.2)

  unmount-quiet :
      (h : Hook J)
      → IsTicking h
      → h.attached ≡ true
      → h.options.enabled ≡ true
      → Same h (step unmount h)
        × ((step unmount h).mounted ≡ false)
        × ((step unmount h).attached ≡ false)
  unfolding step cleanup
  unmount-quiet h v a n = ground arith

  -- Once a mounted and enabled component is unmounted, and until it is mounted again, no reply, tick
  -- or refetch changes the resource, the loading flag or the error.
  pub unmount_silences :
      (es : List (Event J)) (h : Hook J)
      → IsTicking h
      → h.attached ≡ true
      → h.options.enabled ≡ true
      → Unmounted es
      → Same h (run (unmount ∷ es) h)
  unfolding run
  unmount_silences es h v a n u =
      let (same, m, off) = unmount-quiet h v a n in
      let later = run-quiet es (step unmount h) m off u in
      (later.0 ∙ same.0, later.1 ∙ same.1, later.2 ∙ same.2)

  -- A fetch that is in flight when the hook is rendered with other options is still accepted: its
  -- body becomes the resource under the new options, whatever address it was fetched from.
  pub stale_reply :
      (o : Options) (id : ℕ) (q : Task) (j : J) (h : Hook J)
      → h.attached ≡ true
      → same_deps h.options o ≡ false
      → find id h.requests ≡ some q
      → ((run (render o ∷ reply id (json j) ∷ []) h).resource ≡ some j)
        × ((run (render o ∷ reply id (json j) ∷ []) h).options ≡ o)
  unfolding run step on_render effect cleanup on_reply find
  stale_reply o id q j h a d f = ground arith

  -- With polling off, a render with other options sends no fetch and changes nothing that is shown.
  pub disabled_render :
      (o : Options) (h : Hook J)
      → IsTicking h
      → h.options.enabled ≡ false
      → o.enabled ≡ false
      → Same h (step (render o) h)
        × ((step (render o) h).requests ≡ h.requests)
        × ((step (render o) h).intervals ≡ [])
  unfolding step on_render effect cleanup
  disabled_render o h v a b =
      let (none_set, nothing) =
        Live-none h.options h.cleared_by h.intervals v.live (ground arith) in
      ground arith
