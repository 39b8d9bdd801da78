-- ===== src/BackgroundCanvas/Soundness.antt =====
-- What keeps `update` of BackgroundCanvas.jsx from throwing.
use tabulum.Prelude.{
  ◌&&◌, not, if◌then◌else◌, length-append, refl, true, Bool-cases, get_elem?-some, ◌∙◌, inr, [],
  ◌∷◌, ◌+◌, ltb, inl, false, arith, some, if_cases, All, ◌≡◌, suc, length, List, ℕ,
}
use tabulum.Prelude.Floats.{◌⊖◌, less, Floats, ◌⊗◌, whole}
use tabulum.BackgroundCanvas.Config.{ripple_duration, spawn_rate, Cluster, clusters, max_nodes}
use tabulum.BackgroundCanvas.Nodes.{Node, Pulse, Scene, Outcome, done, random, place, spawn_node}
use tabulum.BackgroundCanvas.Messages.{set_glow}
use tabulum.BackgroundCanvas.Update.{
  Advance, maybe_spawn, move_from, fly, ends, advance, advance_all, remove_old, finish, update,
}
use tabulum.BackgroundCanvas.Aiming.{
  IsUnit, Aimed, IsSound, target-some, IsTarget-more, length-set_glow, move_from-IsSound,
}
use tabulum.BackgroundCanvas.Loop.{
  remove, is_requested, Background, Event, mount, unmount, resize, point_at, leave, frame, request,
  show, render, loop, set_size, set_mouse, step, run, initial,
}

module _ {R : Type 0} ⦃f : Floats R⦄ where
  ends-some :
      (ns : List (Node R)) (p : Pulse R)
      → Aimed (length ns) p
      → (t : ℕ) × (a : Node R) × (b : Node R) × (ends ns p ≡ some (t, a, b))
  unfolding ends
  ends-some ns p h =
      let (t, o, l, k) = target-some (length ns) p.from_node p.to_node h in
      let (a, ea) = get_elem?-some ns p.from_node l in
      let (b, eb) = get_elem?-some ns t k in (t, a, b, rw (o, ea, eb, ends) refl)

  advance-to :
      (s : Scene R) (ns : List (Node R)) (p : Pulse R) (t : ℕ) (a b : Node R)
      → p.alive ≡ true
      → ends ns p ≡ some (t, a, b)
      → advance s ns p
        ≡ some (fly s a b p, if (fly s a b p).alive then ns else set_glow (whole 1) t ns)
  unfolding advance
  advance-to s ns p t a b e o = rw (e, o, advance) refl

  advance-alive :
      (s : Scene R) (ns : List (Node R)) (p : Pulse R)
      → p.alive ≡ true
      → Aimed (length ns) p
      → (q : Pulse R) × (ns' : List (Node R)) × (advance s ns p ≡ some (q, ns'))
        × Aimed (length ns) q
        × (length ns' ≡ length ns)
  unfolding advance fly
  advance-alive s ns p e h =
      let (t, a, b, o) = ends-some ns p h in
      let q = fly s a b p in
      (
        q,
        if q.alive then ns else set_glow (whole 1) t ns,
        advance-to s ns p t a b e o,
        h,
        if_cases (λ (ms : List (Node R)). length ms ≡ length ns) q.alive (λ _. refl)
            (λ _. length-set_glow (whole 1) t ns),
      )

  advance-some :
      (s : Scene R) (ns : List (Node R)) (p : Pulse R)
      → Aimed (length ns) p
      → (q : Pulse R) × (ns' : List (Node R)) × (advance s ns p ≡ some (q, ns'))
        × Aimed (length ns) q
        × (length ns' ≡ length ns)
  unfolding advance
  advance-some s ns p a = elim (Bool-cases p.alive) [
    | inl e ↦ advance-alive s ns p e a
    | inr e ↦ (record p { age = suc p.age }, ns, rw (e, advance) refl, a, refl)
  ]

  -- That the loop over the pulses does not throw and keeps the pulses aimed.
  abbrev IsSteady : ℕ → Advance R → Type 0
  IsSteady n a = (a.threw ≡ false) × All (Aimed n) a.pulses × (length a.nodes ≡ n)

  advance_all-step :
      (n : ℕ) (s : Scene R) (p q : Pulse R) (ps : List (Pulse R)) (ns ns' : List (Node R))
      → advance s ns p ≡ some (q, ns')
      → Aimed n q
      → IsSteady n (advance_all s ps ns')
      → IsSteady n (advance_all s (p ∷ ps) ns)
  unfolding advance_all
  advance_all-step n s p q ps ns ns' e a r = rw (e, advance_all) (r.0, (a, r.1), r.2)

  advance_all-IsSteady :
      (n : ℕ) (s : Scene R) (ps : List (Pulse R)) (ns : List (Node R))
      → length ns ≡ n
      → All (Aimed n) ps
      → IsSteady n (advance_all s ps ns)
  unfolding advance_all
  advance_all-IsSteady n s [] ns l a = (refl, tt, l)
  advance_all-IsSteady n s (p ∷ ps) ns l a =
      let (q, ns', e, b, l') = advance-some s ns p (rw (l) a.0) in
      advance_all-step n s p q ps ns ns' e (rw⁻¹ (l) b)
        (advance_all-IsSteady n s ps ns' (l' ∙ l) a.1)

  remove_old-Aimed :
      (n : ℕ) (ps : List (Pulse R)) → All (Aimed n) ps → All (Aimed n) (remove_old ps)
  unfolding remove_old
  remove_old-Aimed n [] a = tt
  remove_old-Aimed n (p ∷ ps) a =
      if_cases (All (Aimed n)) (not p.alive && ltb ripple_duration p.age) {y = p ∷ remove_old ps}
        (λ _. remove_old-Aimed n ps a.1) (λ _. (a.0, remove_old-Aimed n ps a.1))

  finish-IsSound : (s : Scene R) → IsSound s → (s' : Scene R) × (finish s ≡ done s') × IsSound s'
  unfolding finish
  finish-IsSound s v =
      let a = advance_all s s.pulses s.nodes in
      let (t, q, l) = advance_all-IsSteady (length s.nodes) s s.pulses s.nodes refl v.1 in
      let s' = record s { pulses = remove_old a.pulses; nodes = a.nodes } in
      (s', rw (t, finish) refl, rw (l) (v.0, remove_old-Aimed (length s.nodes) a.pulses q))

  Aimed-more : (n : ℕ) (ps : List (Pulse R)) → All (Aimed n) ps → All (Aimed (n + 1)) ps
  Aimed-more n [] a = tt
  Aimed-more n (p ∷ ps) a = (IsTarget-more n p.from_node p.to_node a.0, Aimed-more n ps a.1)

  place-length :
      (rand : ℕ → R) (c : Cluster R) (s : Scene R)
      → length (place rand c s).nodes ≡ length s.nodes + 1
  unfolding place
  place-length rand c s = length-append {0} s.nodes _

  spawn_node-IsSound :
      (rand : ℕ → R) (s : Scene R)
      → IsUnit rand
      → ltb (length s.nodes) max_nodes ≡ true
      → IsSound s
      → (s' : Scene R) × (spawn_node rand s ≡ done s') × IsSound s'
  unfolding spawn_node place
  spawn_node-IsSound rand s u h v =
      let s' = (random rand s).1 in
      let (c, e) =
        get_elem?-some (clusters {R = R}) (f.floor (rand s.drawn ⊗ whole 5))
          (u s.drawn 5 (omega arith) (omega arith)) in
      let l = place-length rand c s' in
      (
        place rand c s',
        rw (e, spawn_node) refl,
        rw (l) (ground arith, Aimed-more (length s.nodes) s.pulses v.1),
      )

  maybe_spawn-IsSound :
      (rand : ℕ → R) (s : Scene R)
      → IsUnit rand
      → IsSound s
      → (s' : Scene R) × (maybe_spawn rand s ≡ done s') × IsSound s'
  unfolding maybe_spawn
  maybe_spawn-IsSound rand s u v =
      let s' = (random rand s).1 in
      elim (Bool-cases (ltb (length s.nodes) max_nodes)) [
        | inr e ↦ (s, rw (e, maybe_spawn) refl, v)
        | inl e ↦ elim (Bool-cases (less (rand s.drawn) spawn_rate)) [
          | inr e' ↦ (s', rw (e, e', maybe_spawn) refl, v)
          | inl e' ↦
              let (s'', q, w) = spawn_node-IsSound rand s' u e v in
              (s'', rw (e, e', maybe_spawn) q, w)
        ]
      ]

  -- While every pulse is on its way from one node to another, a frame never throws: it ends normally,
  -- with every pulse again between two nodes and with at most 40 nodes, whatever the random numbers are
  -- in [0, 1).
  pub update-IsSound :
      (rand : ℕ → R) (s : Scene R)
      → IsUnit rand
      → IsSound s
      → (s' : Scene R) × (update rand s ≡ done s') × IsSound s'
  unfolding update
  update-IsSound rand s u v =
      let (s1, e, v1) = maybe_spawn-IsSound rand (record s { tick = suc s.tick }) u v in
      let (s2, e', v2) =
        finish-IsSound (move_from rand (length s1.nodes) 0 s1)
          (move_from-IsSound rand (length s1.nodes) 0 s1 u v1) in
      (s2, rw (e, update) e', v2)

module _ {R : Type 0} ⦃f : Floats R⦄ (rand : ℕ → R) (u : IsUnit rand) where
  show-IsSound :
      (o : Outcome R) (s' : Scene R) (b : Background R)
      → o ≡ done s'
      → IsSound s'
      → IsSound (show o b).scene
  unfolding show
  show-IsSound o s' b e v = rw (e, show) v

  loop-IsSound : (time : R) (b : Background R) → IsSound b.scene → IsSound (loop rand time b).scene
  unfolding loop request render
  loop-IsSound time b v =
      let (s', e, w) = update-IsSound rand b.scene u v in
      if_cases (λ (c : Background R). IsSound c.scene) (less (time ⊖ b.last_frame) (whole 32))
        (λ _. v) (λ _. show-IsSound (update rand b.scene) s' _ e w)

  step-IsSound : (e : Event R) (b : Background R) → IsSound b.scene → IsSound (step rand e b).scene
  unfolding step request set_size set_mouse initial remove
  step-IsSound (mount w h) b v = ground arith
  step-IsSound unmount b v = ground arith
  step-IsSound (resize w h) b v = ground arith
  step-IsSound (point_at x y) b v = ground arith
  step-IsSound leave b v = ground arith
  step-IsSound (frame id time) b v =
      if_cases (λ (c : Background R). IsSound c.scene) (is_requested id b.requested)
        (λ _. loop-IsSound time (record b { requested = remove id b.requested }) v) (λ _. v)

  run-IsSound :
      (es : List (Event R)) (b : Background R) → IsSound b.scene → IsSound (run rand es b).scene
  unfolding run
  run-IsSound [] b v = v
  run-IsSound (e ∷ es) b v = run-IsSound es (step rand e b) (step-IsSound e b v)

  -- Whatever has happened since the page was opened, the next frame does not throw, and after it there
  -- are at most 40 nodes and every pulse is on its way from one node to another: the random numbers
  -- need only be in [0, 1), so that an index drawn for a list falls within it.
  pub update-run :
      (es : List (Event R))
      → (s' : Scene R) × (update rand (run rand es initial).scene ≡ done s') × IsSound s'
  unfolding initial
  update-run es =
      update-IsSound rand (run rand es initial).scene u (run-IsSound es initial (omega arith, tt))
