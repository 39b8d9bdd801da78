-- ===== src/UsePolling/Loading.antt =====
-- What the hook shows: loading until the first reply, then a resource, an error, or both.
use tabulum.Prelude.{
  ◌∙◌, sym, if_cases, ℕ, List, [], ◌∷◌, none, true, false, ◌≡◌, refl, arith, ◌⊎◌, ◌≢◌, Option-cases,
  inl, inr,
}
use tabulum.UsePolling.State.{
  Options, Outcome, thrown, http, json, Hook, Event, mount, unmount, render, tick, reply, refetch,
  initial,
}
use tabulum.UsePolling.Handlers.{
  remove, find, fetch_data, settle, on_reply, effect, cleanup, on_render, on_tick, step, run,
}

module _ {ℓ} {J : Type ℓ} where
  -- While loading there is nothing else to show; afterwards there is.
  pub record IsShown (h : Hook J) : Type ℓ where
    pub first : h.loading ≡ true → (h.resource ≡ none) × (h.error ≡ none)
    pub later : h.loading ≡ false → (h.resource ≢ none) ⊎ (h.error ≢ none)

  settle-IsShown : (r : Outcome J) (h : Hook J) → IsShown h → IsShown (settle r h)
  unfolding settle
  settle-IsShown (thrown m) h v = record { first = λ e. cc; later = λ e. inr (λ n. cc) }
  settle-IsShown (http c) h v = record { first = λ e. cc; later = λ e. inr (λ n. cc) }
  settle-IsShown (json j) h v = record { first = λ e. cc; later = λ e. inl (λ n. cc) }

  -- A failed fetch keeps the resource that is there, and a good one takes the error away.
  pub settle_lem :
      (r : Outcome J) (h : Hook J)
      → ((settle r h).loading ≡ false)
        × (((settle r h).error ≢ none) × ((settle r h).resource ≡ h.resource)
            ⊎ ((settle r h).error ≡ none) × ((settle r h).resource ≢ none))
  unfolding settle
  settle_lem (thrown m) h = (refl, inl ((λ e. cc), refl))
  settle_lem (http c) h = (refl, inl ((λ e. cc), refl))
  settle_lem (json j) h = (refl, inr (refl, (λ e. cc)))

  -- What the events other than an accepted reply leave as it was.
  abbrev pub Same : Hook J → Hook J → Type ℓ
  Same h h' = (h'.resource ≡ h.resource) × (h'.loading ≡ h.loading) × (h'.error ≡ h.error)

  Same-IsShown : (h h' : Hook J) → Same h h' → IsShown h → IsShown h'
  Same-IsShown h h' (r, l, e) v = record {
    first = λ p. let (a, b) = v.first (sym l ∙ p) in (r ∙ a, e ∙ b);
    later = λ p. rw (r, e) (v.later (sym l ∙ p));
  }

  effect-Same : (o : Options) (h : Hook J) → Same h (effect o h)
  unfolding effect
  effect-Same o h = ground arith

  cleanup-Same : (h : Hook J) → Same h (cleanup h)
  unfolding cleanup
  cleanup-Same h = ground arith

  on_render-Same : (o : Options) (h : Hook J) → Same h (on_render o h)
  unfolding on_render
  on_render-Same o h = ground (arith, cleanup-Same h, effect-Same o (cleanup h))

  on_reply-IsShown : (id : ℕ) (r : Outcome J) (h : Hook J) → IsShown h → IsShown (on_reply id r h)
  unfolding on_reply
  on_reply-IsShown id r h v = elim (Option-cases (find id h.requests)) [
    | inl e ↦ rw (e, on_reply) v
    | inr (q, e) ↦
        let h' : Hook J = record h { requests = remove id h.requests } in
        let v' = Same-IsShown h h' (refl, refl, refl) v in
        rw (e, on_reply) (if_cases IsShown h.mounted (λ _. settle-IsShown r h' v') (λ _. v'))
  ]

  on_tick-Same : (id : ℕ) (h : Hook J) → Same h (on_tick id h)
  unfolding on_tick
  on_tick-Same id h = ground arith

  step-IsShown : (e : Event J) (h : Hook J) → IsShown h → IsShown (step e h)
  unfolding step fetch_data
  step-IsShown mount h v =
      if_cases IsShown h.attached (λ _. v) (λ _. Same-IsShown h _ (effect-Same h.options h) v)
  step-IsShown unmount h v =
      if_cases IsShown h.attached (λ _. Same-IsShown h _ (cleanup-Same h) v) (λ _. v)
  step-IsShown (render o) h v = Same-IsShown h _ (on_render-Same o h) v
  step-IsShown (tick id) h v = Same-IsShown h _ (on_tick-Same id h) v
  step-IsShown (reply id r) h v = on_reply-IsShown id r h v
  step-IsShown refetch h v = Same-IsShown h _ (refl, refl, refl) v

  run-IsShown : (es : List (Event J)) (h : Hook J) → IsShown h → IsShown (run es h)
  unfolding run
  run-IsShown [] h v = v
  run-IsShown (e ∷ es) h v = run-IsShown es (step e h) (step-IsShown e h v)

-- After any events since the first render, while `loading` holds there is neither a resource nor an
-- error to show, and once it does not there is one of them.
pub run-initial-IsShown {ℓ} :
    {J : Type ℓ} (es : List (Event J)) (o : Options) → IsShown (run es (initial {J = J} o))
unfolding initial
run-initial-IsShown es o =
    run-IsShown es (initial o) (record { first = λ e. (refl, refl); later = λ e. cc })
