-- ===== src/UsePolling/Owned.antt =====
-- The hook of usePolling.js as the component that calls it has it: mounted by its component, with
-- `enabled` from the component's own switch, and unmounted with it.
use tabulum.Prelude.{
  if◌then◌else◌, ◌∙◌, length, ap, ℕ, List, [], ◌∷◌, Option, none, some, Bool, true, false, ◌≡◌,
  refl, arith,
}
use tabulum.UsePolling.State.{
  Options, Outcome, Task, Hook, mount, unmount, render, tick, reply, initial,
}
use tabulum.UsePolling.Handlers.{step}
use tabulum.UsePolling.Ticking.{is_set, Live, IsTicking, step-IsTicking}
use tabulum.UsePolling.Attached.{
  mount-attached, unmount-attached, render-attached, tick-attached, reply-attached, render-enabled,
  mount-options, tick-options, reply-options,
}

Live-length :
    (o : Options) (c : Option ℕ) (ts : List Task)
    → Live o c ts
    → length ts ≡ (if is_set c then 1 else 0)
Live-length o none [] l = refl
Live-length o none (t ∷ ts) l = absurd l
Live-length o (some id) [] l = absurd l
Live-length o (some id) (t ∷ []) l = refl
Live-length o (some id) (t ∷ u ∷ ts) l = absurd l

module _ {ℓ} {J : Type ℓ} where
  pub record IsOwned (on : Bool) (h : Hook J) : Type 0 where
    pub ticking : IsTicking h
    pub attached : h.attached ≡ true
    pub enabled : h.options.enabled ≡ on

  pub record IsLeft (h : Hook J) : Type 0 where
    pub ticking : IsTicking h
    pub attached : h.attached ≡ false

  pub mount-IsOwned : (o : Options) → IsOwned o.enabled (step mount (initial {J = J} o))
  unfolding initial
  mount-IsOwned o =
      let first = initial {J = J} o in
      record {
        ticking =
            step-IsTicking mount first (record { live = tt; enabled = refl; mounted = λ e. cc });
        attached = mount-attached first;
        enabled = ap (λ (p : Options). p.enabled) (mount-options first);
      }

  pub render-IsOwned :
      (on : Bool) (o : Options) (h : Hook J) → IsOwned on h → IsOwned o.enabled (step (render o) h)
  render-IsOwned on o h v = record {
    ticking = step-IsTicking (render o) h v.ticking;
    attached = render-attached o h ∙ v.attached;
    enabled = render-enabled o h v.attached;
  }

  pub tick-IsOwned :
      (on : Bool) (id : ℕ) (h : Hook J) → IsOwned on h → IsOwned on (step (tick id) h)
  tick-IsOwned on id h v = record {
    ticking = step-IsTicking (tick id) h v.ticking;
    attached = tick-attached id h ∙ v.attached;
    enabled = ap (λ (p : Options). p.enabled) (tick-options id h) ∙ v.enabled;
  }

  pub reply-IsOwned :
      (on : Bool) (id : ℕ) (r : Outcome J) (h : Hook J)
      → IsOwned on h
      → IsOwned on (step (reply id r) h)
  reply-IsOwned on id r h v = record {
    ticking = step-IsTicking (reply id r) h v.ticking;
    attached = reply-attached id r h ∙ v.attached;
    enabled = ap (λ (p : Options). p.enabled) (reply-options id r h) ∙ v.enabled;
  }

  pub unmount-IsLeft : (on : Bool) (h : Hook J) → IsOwned on h → IsLeft (step unmount h)
  unmount-IsLeft on h v = record {
    ticking = step-IsTicking unmount h v.ticking;
    attached = unmount-attached h;
  }

  pub tick-IsLeft : (id : ℕ) (h : Hook J) → IsLeft h → IsLeft (step (tick id) h)
  tick-IsLeft id h v = record {
    ticking = step-IsTicking (tick id) h v.ticking;
    attached = tick-attached id h ∙ v.attached;
  }

  pub reply-IsLeft : (id : ℕ) (r : Outcome J) (h : Hook J) → IsLeft h → IsLeft (step (reply id r) h)
  reply-IsLeft id r h v = record {
    ticking = step-IsTicking (reply id r) h v.ticking;
    attached = reply-attached id r h ∙ v.attached;
  }

  pub IsOwned-length :
      (on : Bool) (h : Hook J) → IsOwned on h → length h.intervals ≡ (if on then 1 else 0)
  IsOwned-length on h v =
      let count = Live-length h.options h.cleared_by h.intervals v.ticking.live in
      ground (arith, count, v.ticking.enabled, v.attached, v.enabled)

  pub IsLeft-length : (h : Hook J) → IsLeft h → length h.intervals ≡ 0
  IsLeft-length h v =
      let count = Live-length h.options h.cleared_by h.intervals v.ticking.live in
      ground (arith, count, v.ticking.enabled, v.attached)
