-- ===== src/UsePolling/Attached.antt =====
-- What the events of usePolling.js leave alone: whether the component is mounted, and whether it polls.
use tabulum.Prelude.{ℕ, true, false, ◌≡◌, arith}
use tabulum.UsePolling.State.{
  Options, same_deps, Outcome, Hook, mount, unmount, render, tick, reply,
}
use tabulum.UsePolling.Handlers.{
  effect, cleanup, on_render, on_reply, settle, on_tick, fetch_data, step,
}

module _ {ℓ} {J : Type ℓ} where
  pub mount-attached : (h : Hook J) → (step mount h).attached ≡ true
  unfolding step effect fetch_data
  mount-attached h = ground arith

  pub unmount-attached : (h : Hook J) → (step unmount h).attached ≡ false
  unfolding step
  unmount-attached h = ground arith

  pub render-attached : (o : Options) (h : Hook J) → (step (render o) h).attached ≡ h.attached
  unfolding step on_render effect fetch_data cleanup
  render-attached o h = ground arith

  pub tick-attached : (id : ℕ) (h : Hook J) → (step (tick id) h).attached ≡ h.attached
  unfolding step on_tick fetch_data
  tick-attached id h = ground arith

  pub reply-attached :
      (id : ℕ) (r : Outcome J) (h : Hook J) → (step (reply id r) h).attached ≡ h.attached
  unfolding step on_reply settle
  reply-attached id (Outcome.thrown m) h = ground arith
  reply-attached id (Outcome.http n) h = ground arith
  reply-attached id (Outcome.json j) h = ground arith

  -- The options in force poll or not as the last render said.
  pub render-enabled :
      (o : Options) (h : Hook J)
      → h.attached ≡ true
      → (step (render o) h).options.enabled ≡ o.enabled
  unfolding step on_render effect fetch_data same_deps
  render-enabled o h a = ground arith

  pub mount-options : (h : Hook J) → (step mount h).options ≡ h.options
  unfolding step effect fetch_data
  mount-options h = ground arith

  pub tick-options : (id : ℕ) (h : Hook J) → (step (tick id) h).options ≡ h.options
  unfolding step on_tick fetch_data
  tick-options id h = ground arith

  pub reply-options :
      (id : ℕ) (r : Outcome J) (h : Hook J) → (step (reply id r) h).options ≡ h.options
  unfolding step on_reply settle
  reply-options id (Outcome.thrown m) h = ground arith
  reply-options id (Outcome.http n) h = ground arith
  reply-options id (Outcome.json j) h = ground arith

  -- Only a reply changes the resource.
  pub mount-resource : (h : Hook J) → (step mount h).resource ≡ h.resource
  unfolding step effect fetch_data
  mount-resource h = ground arith

  pub render-resource : (o : Options) (h : Hook J) → (step (render o) h).resource ≡ h.resource
  unfolding step on_render effect fetch_data cleanup
  render-resource o h = ground arith

  pub tick-resource : (id : ℕ) (h : Hook J) → (step (tick id) h).resource ≡ h.resource
  unfolding step on_tick fetch_data
  tick-resource id h = ground arith
