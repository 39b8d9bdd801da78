-- ===== src/NetworkGraph/Dragging.antt =====
-- When the simulation of the 2D view is kept moving, and which nodes are held.
use tabulum.Prelude.{
  ℕ, zero, suc, List, [], ◌∷◌, Option, none, some, Bool, true, false, not, ◌&&◌, ◌==◌, ◌<◌, length,
  ◌≡◌, ◌∙◌, ap, refl, arith, if◌then◌else◌, Option-cases, inl, inr,
}
use tabulum.NetworkGraph.Drag.{
  Body, Simulation, Pull, start_pull, pull_to, end_pull, node_of, let_go, is_none, at_body, pull,
  pulls, fix_here, fix_at, set_free,
}
use tabulum.NetworkGraph.Grips.{
  is_dragged, Distinct, node_of-dragged, dragged-let_go, freed-let_go, Distinct-let_go,
}

abbrev pub is_fixed : {R : Type 0} → Option R → Bool
is_fixed none = false
is_fixed (some x) = true

module _ {R : Type 0} where
  abbrev pub is_held : Body R → Bool
  is_held b = is_fixed b.fx && is_fixed b.fy

  abbrev pub held_at : ℕ → List (Body R) → Bool
  held_at i [] = false
  held_at zero (b ∷ bs) = is_held b
  held_at (suc i) (b ∷ bs) = held_at i bs

  held-at_body :
      (v : Bool) (i k : ℕ) (f : Body R → Body R) (bs : List (Body R))
      → ((b : Body R) → is_held (f b) ≡ v)
      → k < length bs
      → held_at k (at_body i f bs) ≡ (if i == k then v else held_at k bs)
  unfolding at_body
  held-at_body v i k f [] h l = ground arith
  held-at_body v zero zero f (b ∷ bs) h l = ground (arith, h b)
  held-at_body v zero (suc k) f (b ∷ bs) h l = ground arith
  held-at_body v (suc i) zero f (b ∷ bs) h l = ground arith
  held-at_body v (suc i) (suc k) f (b ∷ bs) h l = ground (arith, held-at_body v i k f bs h)

  length-at_body :
      (i : ℕ) (f : Body R → Body R) (bs : List (Body R)) → length (at_body i f bs) ≡ length bs
  unfolding at_body
  length-at_body i f [] = refl
  length-at_body zero f (b ∷ bs) = refl
  length-at_body (suc i) f (b ∷ bs) = ap suc (length-at_body i f bs)

  -- `crowded` tells whether two gestures may drag one node.
  pub record IsDragging (crowded : Bool) (n : ℕ) (s : Simulation R) : Type 0 where
    pub warm : s.warm ≡ not (is_none s.grips)
    pub count : length s.bodies ≡ n
    pub free : (k : ℕ) → k < n → is_dragged k s.grips ≡ false → held_at k s.bodies ≡ false
    pub alone : crowded ≡ false → Distinct s.grips
    pub held :
        (k : ℕ) → k < n → crowded ≡ false → is_dragged k s.grips ≡ true → held_at k s.bodies ≡ true

  -- A gesture starts on a dragged node only where that may be.
  abbrev pub Allowed : Bool → List (Pull R) → Simulation R → Type 0
  Allowed crowded [] s = Unit
  Allowed crowded (start_pull g i ∷ ps) s =
      (crowded ≡ false → is_dragged i s.grips ≡ false)
      × Allowed crowded ps (pull (start_pull g i) s)
  Allowed crowded (p ∷ ps) s = Allowed crowded ps (pull p s)

  start-IsDragging :
      (c : Bool) (n g i : ℕ) (s : Simulation R)
      → (c ≡ false → is_dragged i s.grips ≡ false)
      → IsDragging c n s
      → IsDragging c n (pull (start_pull g i) s)
  unfolding pull fix_here
  start-IsDragging c n g i s new v = elim (Option-cases (node_of g s.grips)) [
    | inr (j, e) ↦ rw (e, pull) v
    | inl e ↦
        rw (e, pull)
          (record {
            warm = ground (arith, v.warm);
            count = length-at_body i fix_here s.bodies ∙ v.count;
            free = λ k l u.
                ground
                  (arith, held-at_body true i k fix_here s.bodies (λ b. refl), v.free k l, v.count);
            alone = λ q. (new q, v.alone q);
            held = λ k l q u.
                ground
                  (arith, held-at_body true i k fix_here s.bodies (λ b. refl), v.held k l, v.count);
          })
  ]

  pull_to-IsDragging :
      (c : Bool) (n g : ℕ) (x y : R) (s : Simulation R)
      → IsDragging c n s
      → IsDragging c n (pull (pull_to g x y) s)
  unfolding pull fix_at
  pull_to-IsDragging c n g x y s v = elim (Option-cases (node_of g s.grips)) [
    | inl e ↦ rw (e, pull) v
    | inr (i, e) ↦
        rw (e, pull)
          (record {
            warm = v.warm;
            count = length-at_body i (fix_at x y) s.bodies ∙ v.count;
            free = λ k l u. ground (
              arith,
              held-at_body true i k (fix_at x y) s.bodies (λ b. refl),
              node_of-dragged g i s.grips e,
              v.free k l,
              v.count,
            );
            alone = v.alone;
            held = λ k l q u. ground (
              arith,
              held-at_body true i k (fix_at x y) s.bodies (λ b. refl),
              v.held k l,
              v.count,
            );
          })
  ]

  end-IsDragging :
      (c : Bool) (n g : ℕ) (s : Simulation R)
      → IsDragging c n s
      → IsDragging c n (pull (end_pull g) s)
  unfolding pull set_free
  end-IsDragging c n g s v = elim (Option-cases (node_of g s.grips)) [
    | inl e ↦ rw (e, pull) v
    | inr (i, e) ↦
        rw (e, pull)
          (record {
            warm = ground (arith, v.warm, node_of-dragged g i s.grips e);
            count = length-at_body i set_free s.bodies ∙ v.count;
            free = λ k l u. ground (
              arith,
              held-at_body false i k set_free s.bodies (λ b. refl),
              dragged-let_go g i k s.grips e,
              v.free k l,
              v.count,
            );
            alone = λ q. Distinct-let_go g s.grips (v.alone q);
            held = λ k l q u. ground (
              arith,
              held-at_body false i k set_free s.bodies (λ b. refl),
              dragged-let_go g i k s.grips e,
              freed-let_go g i s.grips e (v.alone q),
              v.held k l q,
              v.count,
            );
          })
  ]

  -- After any gestures the simulation is kept moving exactly while one of them drags a node: also when
  -- there are several, the first to end does not stop it. A node that no gesture drags is not held in
  -- place; a node that one drags is, as long as no gesture has started on a node that another dragged
  -- (`crowded` is false). There are as many nodes as before.
  pub pulls-IsDragging :
      (crowded : Bool) (n : ℕ) (ps : List (Pull R)) (s : Simulation R)
      → Allowed crowded ps s
      → IsDragging crowded n s
      → IsDragging crowded n (pulls ps s)
  unfolding pulls
  pulls-IsDragging c n [] s a v = v
  pulls-IsDragging c n (start_pull g i ∷ ps) s a v =
      pulls-IsDragging c n ps (pull (start_pull g i) s) a.1 (start-IsDragging c n g i s a.0 v)
  pulls-IsDragging c n (pull_to g x y ∷ ps) s a v =
      pulls-IsDragging c n ps (pull (pull_to g x y) s) a (pull_to-IsDragging c n g x y s v)
  pulls-IsDragging c n (end_pull g ∷ ps) s a v =
      pulls-IsDragging c n ps (pull (end_pull g) s) a (end-IsDragging c n g s v)

  -- Two touches drag one node, and the first of them ends: the node is let go, although the second
  -- still drags it.
  pub second_touch :
      (g h i : ℕ) (bodies : List (Body R))
      → i < length bodies
      → (g == h) ≡ false
      → let s : Simulation R = record { bodies = bodies; warm = false; grips = [] } in
        let s' : Simulation R = pulls (start_pull g i ∷ start_pull h i ∷ end_pull g ∷ []) s in
        (is_dragged i s'.grips ≡ true) × (held_at i s'.bodies ≡ false)
  unfolding pulls pull node_of let_go set_free
  second_touch g h i bodies l n =
      let once = at_body i fix_here bodies in
      let twice = at_body i fix_here once in
      ground (
        arith,
        n,
        held-at_body false i i set_free twice (λ b. refl),
        length-at_body i fix_here once,
        length-at_body i fix_here bodies,
      )
