-- ===== src/BackgroundCanvas/Frames.antt =====
-- Which frames the background has asked for.
use tabulum.Prelude.{ℕ, List, [], ◌∷◌, Bool, true, false, ◌≡◌, refl, arith, if_cases}
use tabulum.Prelude.Floats.{Floats, less, ◌⊖◌, whole}
use tabulum.BackgroundCanvas.Nodes.{Outcome, done, thrown}
use tabulum.BackgroundCanvas.Update.{update}
use tabulum.BackgroundCanvas.Loop.{
  Background, Event, mount, unmount, resize, point_at, leave, frame, remove, is_requested, request,
  show, render, loop, set_size, set_mouse, step, run, initial,
}

module _ {R : Type 0} ⦃f : Floats R⦄ (rand : ℕ → R) where
  -- The requests are the frame that `rafId` names while mounted, and none otherwise.
  abbrev pub Asked : Bool → ℕ → List ℕ → Type 0
  Asked false id js = js ≡ []
  Asked true id js = js ≡ id ∷ []

  abbrev pub IsScheduled : Background R → Type 0
  IsScheduled b = Asked b.mounted b.raf_id b.requested

  show-keeps :
      (o : Outcome R) (b : Background R)
      → ((show o b).requested ≡ b.requested)
        × ((show o b).mounted ≡ b.mounted)
        × ((show o b).raf_id ≡ b.raf_id)
  unfolding show
  show-keeps (done s) b = (refl, refl, refl)
  show-keeps (thrown s) b = (refl, refl, refl)

  -- What drawing leaves alone.
  render-keeps :
      (b : Background R)
      → ((render rand b).requested ≡ b.requested)
        × ((render rand b).mounted ≡ b.mounted)
        × ((render rand b).raf_id ≡ b.raf_id)
  unfolding render
  render-keeps b = show-keeps (update rand b.scene) b

  loop-keeps :
      (time : R) (b : Background R)
      → ((loop rand time b).requested ≡ b.next_id ∷ b.requested)
        × ((loop rand time b).mounted ≡ b.mounted)
        × ((loop rand time b).raf_id ≡ b.next_id)
  unfolding loop request
  loop-keeps time b =
      if_cases
        (λ (c : Background R).
          (c.requested ≡ b.next_id ∷ b.requested)
          × (c.mounted ≡ b.mounted)
          × (c.raf_id ≡ b.next_id))
        (less (time ⊖ b.last_frame) (whole 32)) (λ _. (refl, refl, refl))
        (λ _. render-keeps (record (request b) { last_frame = time }))

  step-IsScheduled : (e : Event R) (b : Background R) → IsScheduled b → IsScheduled (step rand e b)
  unfolding step request set_size set_mouse remove is_requested
  step-IsScheduled (mount w h) b v = ground arith
  step-IsScheduled unmount b v = ground arith
  step-IsScheduled (resize w h) b v = ground arith
  step-IsScheduled (point_at x y) b v = ground arith
  step-IsScheduled leave b v = ground arith
  step-IsScheduled (frame id time) b v =
      ground (arith, loop-keeps time (record b { requested = remove id b.requested }))

  run-IsScheduled :
      (es : List (Event R)) (b : Background R) → IsScheduled b → IsScheduled (run rand es b)
  unfolding run
  run-IsScheduled [] b v = v
  run-IsScheduled (e ∷ es) b v = run-IsScheduled es (step rand e b) (step-IsScheduled e b v)

  -- After any events since the page was opened: while the background is mounted the browser has been
  -- asked for exactly one frame, the one that `rafId` names and the cleanup cancels; otherwise for
  -- none.
  pub run-initial-IsScheduled : (es : List (Event R)) → IsScheduled (run rand es initial)
  unfolding initial
  run-initial-IsScheduled es = run-IsScheduled es initial refl

  -- The events after which the background is still not mounted.
  abbrev pub Away : List (Event R) → Type 0
  Away [] = Unit
  Away (mount w h ∷ es) = ⊥
  Away (unmount ∷ es) = Away es
  Away (resize w h ∷ es) = Away es
  Away (point_at x y ∷ es) = Away es
  Away (leave ∷ es) = Away es
  Away (frame id time ∷ es) = Away es

  step-idle :
      (e : Event R) (b : Background R)
      → Away (e ∷ [])
      → b.mounted ≡ false
      → b.requested ≡ []
      → step rand e b ≡ b
  unfolding step is_requested
  step-idle (mount w h) b a m q = absurd a
  step-idle unmount b a m q = rw (m, step) refl
  step-idle (resize w h) b a m q = rw (m, step) refl
  step-idle (point_at x y) b a m q = rw (m, step) refl
  step-idle leave b a m q = rw (m, step) refl
  step-idle (frame id time) b a m q = rw (q, step) refl

  run-idle :
      (es : List (Event R)) (b : Background R)
      → Away es
      → b.mounted ≡ false
      → b.requested ≡ []
      → run rand es b ≡ b
  unfolding run
  run-idle [] b a m q = refl
  run-idle (mount w h ∷ es) b a m q = absurd a
  run-idle (unmount ∷ es) b a m q = rw (step-idle unmount b tt m q, run-idle es b a m q) refl
  run-idle (resize w h ∷ es) b a m q =
      rw (step-idle (resize w h) b tt m q, run-idle es b a m q) refl
  run-idle (point_at x y ∷ es) b a m q =
      rw (step-idle (point_at x y) b tt m q, run-idle es b a m q) refl
  run-idle (leave ∷ es) b a m q = rw (step-idle leave b tt m q, run-idle es b a m q) refl
  run-idle (frame id time ∷ es) b a m q =
      rw (step-idle (frame id time) b tt m q, run-idle es b a m q) refl

  step-unmounted : (b : Background R) → (step rand unmount b).mounted ≡ false
  unfolding step
  step-unmounted b = ground arith

  Asked-none : (m : Bool) (id : ℕ) (js : List ℕ) → Asked m id js → m ≡ false → js ≡ []
  Asked-none true id js a m = cc
  Asked-none false id js a m = a

  -- Once the background has been unmounted, whatever had happened before, no frame, mouse movement or
  -- resize changes anything: as long as it is not mounted again, it stays exactly as the cleanup left
  -- it.
  pub run-unmounted :
      (es es' : List (Event R))
      → Away es'
      → run rand es' (step rand unmount (run rand es initial))
        ≡ step rand unmount (run rand es initial)
  unfolding initial
  run-unmounted es es' a =
      let b = step rand unmount (run rand es initial) in
      run-idle es' b a (step-unmounted (run rand es initial)) (
        Asked-none b.mounted b.raf_id b.requested
          (step-IsScheduled unmount (run rand es initial) (run-initial-IsScheduled es))
          (step-unmounted (run rand es initial)))
