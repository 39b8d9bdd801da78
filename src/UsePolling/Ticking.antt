-- ===== src/UsePolling/Ticking.antt =====
-- One interval is live exactly while the component is mounted and enabled, and it asks for the
-- address of the last render.
use tabulum.Prelude.{
  ℕ, List, [], ◌∷◌, Option, none, some, Bool, true, false, ◌≡◌, refl, arith, if_cases, not, ◌||◌,
  ◌&&◌,
}
use tabulum.UsePolling.State.{
  Options, build_url, same_deps, Task, Hook, Event, mount, unmount, render, tick, reply, refetch,
  initial,
}
use tabulum.UsePolling.Handlers.{remove, on_reply, effect, cleanup, on_render, on_tick, step, run}

-- The interval that the cleanup will clear is the live one, for the address of the options.
abbrev pub Live : Options → Option ℕ → List Task → Type 0
Live o none [] = Unit
Live o none (t ∷ ts) = ⊥
Live o (some id) [] = ⊥
Live o (some id) (t ∷ []) = (t.id ≡ id) × (t.url ≡ build_url o)
Live o (some id) (t ∷ u ∷ ts) = ⊥

abbrev pub is_set : Option ℕ → Bool
is_set none = false
is_set (some id) = true

pub Live-none :
    (o : Options) (c : Option ℕ) (ts : List Task)
    → Live o c ts
    → is_set c ≡ false
    → (c ≡ none) × (ts ≡ [])
Live-none o none [] l n = (refl, refl)
Live-none o none (t ∷ ts) l n = absurd l
Live-none o (some id) ts l n = cc

module _ {ℓ} {J : Type ℓ} where
  pub record IsTicking (h : Hook J) : Type 0 where
    pub live : Live h.options h.cleared_by h.intervals
    pub enabled : is_set h.cleared_by ≡ (h.attached && h.options.enabled)
    pub mounted : h.attached ≡ true → h.mounted ≡ true

  effect-IsTicking :
      (o : Options) (h : Hook J) → h.cleared_by ≡ none → h.intervals ≡ [] → IsTicking (effect o h)
  unfolding effect
  effect-IsTicking o h c i = ground arith

  cleanup-clears :
      (h : Hook J) → IsTicking h → ((cleanup h).cleared_by ≡ none) × ((cleanup h).intervals ≡ [])
  unfolding cleanup remove
  cleanup-clears h v = ground arith

  pub step-IsTicking : (e : Event J) (h : Hook J) → IsTicking h → IsTicking (step e h)
  unfolding step on_reply on_tick on_render remove
  step-IsTicking mount h v =
      if_cases IsTicking h.attached (λ _. v)
        λ off.
          let (none_set, nothing) = Live-none h.options _ h.intervals v.live (ground arith) in
          effect-IsTicking h.options h none_set nothing
  step-IsTicking unmount h v =
      if_cases IsTicking h.attached (λ _. ground (arith, cleanup-clears h v)) (λ _. v)
  step-IsTicking (render o) h v =
      let (none_set, nothing) = cleanup-clears h v in
      if_cases IsTicking (not h.attached || same_deps h.options o) (λ _. v)
        (λ _. effect-IsTicking o (cleanup h) none_set nothing)
  step-IsTicking (tick id) h v = ground arith
  step-IsTicking (reply id r) h v = ground arith
  step-IsTicking refetch h v = ground arith

  pub run-IsTicking : (es : List (Event J)) (h : Hook J) → IsTicking h → IsTicking (run es h)
  unfolding run
  run-IsTicking [] h v = v
  run-IsTicking (e ∷ es) h v = run-IsTicking es (step e h) (step-IsTicking e h v)

-- After any events since the first render, an interval is live exactly while the component is
-- mounted and enabled; it is then the only one, the cleanup holds its id, and it asks for the address
-- of the options in force. And `mountedRef` holds true while the component is mounted.
pub run-initial-IsTicking {ℓ} :
    {J : Type ℓ} (es : List (Event J)) (o : Options) → IsTicking (run es (initial {J = J} o))
unfolding initial
run-initial-IsTicking es o =
    run-IsTicking es (initial o) (record { live = tt; enabled = refl; mounted = λ e. cc })
