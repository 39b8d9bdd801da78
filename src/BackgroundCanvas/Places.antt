-- ===== src/BackgroundCanvas/Places.antt =====
-- The places of the nodes of BackgroundCanvas.jsx, which only the loop over the nodes changes.
use tabulum.Prelude.{
  Option, none, ltb, zero, [], Bool-cases, refl, length-set, ◌∙◌, subst, if_cases, inr, All, ◌≤◌,
  ◌∷◌, some, set, inl, true, suc, length, get_elem?, false, Option-cases, ◌≡◌, arith, List, ℕ,
}
use tabulum.Prelude.Floats.{◌⊗◌, whole, Floats, less, negative, ◌⊕◌}
use tabulum.BackgroundCanvas.Config.{clusters, message_min_age, message_rate, max_nodes, spawn_rate}
use tabulum.BackgroundCanvas.Nodes.{
  place, spawn_node, random, Pulse, Node, Scene, Outcome, done, thrown,
}
use tabulum.BackgroundCanvas.Motion.{margin}
use tabulum.BackgroundCanvas.Messages.{candidates, set_glow, send_pulse, answer, message}
use tabulum.BackgroundCanvas.Update.{fly, maybe_spawn, advance, advance_all, finish, ends}

module _ {R : Type 0} ⦃f : Floats R⦄ where
  -- Not beyond the margin on either side, which a number that is not one is not either.
  abbrev pub IsWithin : R → R → Type 0
  IsWithin side x = (less x (negative margin) ≡ false) × (less (side ⊕ margin) x ≡ false)

  abbrev pub IsInside : R → R → Node R → Type 0
  IsInside w h n = IsWithin w n.x × IsWithin h n.y

  -- What is asked of the window: its far edge is not before its near edge.
  abbrev pub IsSide : R → Type 0
  IsSide side = less (negative margin) (side ⊕ margin) ≡ true

  -- The nodes before index `i` are inside.
  abbrev pub InsideBelow : R → R → ℕ → List (Node R) → Type 0
  InsideBelow w h zero ns = Unit
  InsideBelow w h (suc i) [] = Unit
  InsideBelow w h (suc i) (n ∷ ns) = IsInside w h n × InsideBelow w h i ns

  pub InsideBelow-set :
      (w h : R) (i : ℕ) (ns : List (Node R)) (n : Node R)
      → IsInside w h n
      → InsideBelow w h i ns
      → InsideBelow w h (suc i) (set ns i n)
  InsideBelow-set w h zero [] n v b = tt
  InsideBelow-set w h zero (m ∷ ns) n v b = (v, tt)
  InsideBelow-set w h (suc i) [] n v b = tt
  InsideBelow-set w h (suc i) (m ∷ ns) n v b = (b.0, InsideBelow-set w h i ns n v b.1)

  InsideBelow-All :
      (w h : R) (i : ℕ) (ns : List (Node R))
      → length ns ≤ i
      → InsideBelow w h i ns
      → All (IsInside w h) ns
  InsideBelow-All w h i [] l b = tt
  InsideBelow-All w h zero (n ∷ ns) l b = absurd (omega arith)
  InsideBelow-All w h (suc i) (n ∷ ns) l b = (b.0, InsideBelow-All w h i ns (omega arith) b.1)

  -- A node that is already there may light up.
  InsideBelow-lit :
      (w h : R) (i j : ℕ) (ns : List (Node R)) (n : Node R) (g : R)
      → get_elem? ns j ≡ some n
      → InsideBelow w h i ns
      → InsideBelow w h i (set ns j (record n { glow = g }))
  InsideBelow-lit w h zero j ns n g e b = tt
  InsideBelow-lit w h (suc i) j [] n g e b = tt
  InsideBelow-lit w h (suc i) zero (m ∷ ns) n g e b =
      let same : m ≡ n = cc in (subst (IsInside w h) same b.0, b.1)
  InsideBelow-lit w h (suc i) (suc j) (m ∷ ns) n g e b = (b.0, InsideBelow-lit w h i j ns n g e b.1)

  -- As many nodes, each of them at the place where it was.
  abbrev IsLike : List (Node R) → List (Node R) → Type 0
  IsLike ns ns' =
      (length ns' ≡ length ns) × ((w h : R) (i : ℕ) → InsideBelow w h i ns → InsideBelow w h i ns')

  set_glow-IsLike : (g : R) (j : ℕ) (ns : List (Node R)) → IsLike ns (set_glow g j ns)
  unfolding set_glow
  set_glow-IsLike g j ns = elim (Option-cases (get_elem? ns j)) [
    | inl e ↦ rw (e, set_glow) (refl, λ w h i b. b)
    | inr (n, e) ↦
        rw (e, set_glow)
          (
            length-set {0} ns j (record n { glow = g }),
            λ w h i b. InsideBelow-lit w h i j ns n g e b,
          )
  ]

  IsLike-trans : (ns ns' ns'' : List (Node R)) → IsLike ns ns' → IsLike ns' ns'' → IsLike ns ns''
  IsLike-trans ns ns' ns'' p q = (q.0 ∙ p.0, λ w h i b. q.1 w h i (p.1 w h i b))

  -- The window is as large, and the nodes are where they were.
  abbrev IsStill : Scene R → Scene R → Type 0
  IsStill s s' = (s'.width ≡ s.width) × (s'.height ≡ s.height) × IsLike s.nodes s'.nodes

  answer-IsStill :
      (rand : ℕ → R) (i : ℕ) (m : Node R) (cs : List ℕ) (s : Scene R)
      → IsStill s (answer rand i m cs s)
  unfolding answer send_pulse
  answer-IsStill rand i m [] s = (refl, refl, (refl, λ w h i b. b))
  answer-IsStill rand i m (c ∷ cs) s = (refl, refl, set_glow-IsLike (whole 1) i s.nodes)

  pub message-IsStill :
      (rand : ℕ → R) (i : ℕ) (m : Node R) (s : Scene R) → IsStill s (message rand i m s)
  unfolding message
  message-IsStill rand i m s =
      let s' = (random rand s).1 in
      let same : IsStill s s' = (refl, refl, (refl, λ w h i b. b)) in
      if_cases (IsStill s) (ltb message_min_age m.age)
        (λ _.
          if_cases (IsStill s) (less (rand s.drawn) message_rate)
            (λ _. answer-IsStill rand i m (candidates i m 0 s.nodes) s') (λ _. same))
        (λ _. (refl, refl, (refl, λ w h i b. b)))

  abbrev IsReached : List (Node R) → Option (Pulse R × List (Node R)) → Type 0
  IsReached ns none = Unit
  IsReached ns (some (q, ns')) = IsLike ns ns'

  advance-IsReached :
      (s : Scene R) (ns : List (Node R)) (p : Pulse R) → IsReached ns (advance s ns p)
  unfolding advance
  advance-IsReached s ns p = elim (Bool-cases p.alive) [
    | inr e ↦ rw (e, advance) (refl, λ w h i b. b)
    | inl e ↦ elim (Option-cases (ends ns p)) [
      | inl o ↦ rw (e, o, advance) tt
      | inr ((t, a, b), o) ↦
          rw (e, o, advance)
            (if_cases (IsLike ns) (fly s a b p).alive (λ _. (refl, λ w h i b. b))
              (λ _. set_glow-IsLike (whole 1) t ns))
    ]
  ]

  advance_all-IsLike :
      (s : Scene R) (ps : List (Pulse R)) (ns : List (Node R))
      → IsLike ns (advance_all s ps ns).nodes
  unfolding advance_all
  advance_all-IsLike s [] ns = (refl, λ w h i b. b)
  advance_all-IsLike s (p ∷ ps) ns = elim (Option-cases (advance s ns p)) [
    | inl e ↦ rw (e, advance_all) (refl, λ w h i b. b)
    | inr ((q, ns'), e) ↦
        rw (e, advance_all)
          (IsLike-trans ns ns' (advance_all s ps ns').nodes
            (subst (IsReached ns) e (advance-IsReached s ns p)) (advance_all-IsLike s ps ns'))
  ]

  -- What holds of the scene where nothing was thrown.
  abbrev pub Holds : (Scene R → Type 0) → Outcome R → Type 0
  Holds P (done s) = P s
  Holds P (thrown s) = Unit

  abbrev pub IsSized : R → R → Scene R → Type 0
  IsSized w h s = (s.width ≡ w) × (s.height ≡ h)

  spawn_node-IsSized :
      (rand : ℕ → R) (s : Scene R) → Holds (IsSized s.width s.height) (spawn_node rand s)
  unfolding spawn_node place
  spawn_node-IsSized rand s =
      elim (Option-cases (get_elem? (clusters {R = R}) (f.floor (rand s.drawn ⊗ whole 5)))) [
        | inl e ↦ rw (e, spawn_node) tt
        | inr (c, e) ↦ rw (e, spawn_node) (refl, refl)
      ]

  pub maybe_spawn-IsSized :
      (rand : ℕ → R) (s : Scene R) → Holds (IsSized s.width s.height) (maybe_spawn rand s)
  unfolding maybe_spawn
  maybe_spawn-IsSized rand s =
      let s' = (random rand s).1 in
      if_cases (Holds (IsSized s.width s.height)) (ltb (length s.nodes) max_nodes)
        (λ _.
          if_cases (Holds (IsSized s.width s.height)) (less (rand s.drawn) spawn_rate)
            (λ _. spawn_node-IsSized rand s') (λ _. (refl, refl)))
        (λ _. (refl, refl))

  pub finish-Inside :
      (w h : R) (i : ℕ) (s : Scene R)
      → length s.nodes ≤ i
      → InsideBelow w h i s.nodes
      → Holds (λ s'. All (IsInside w h) s'.nodes) (finish s)
  unfolding finish
  finish-Inside w h i s l b =
      let a = advance_all s s.pulses s.nodes in
      let like = advance_all-IsLike s s.pulses s.nodes in
      if_cases (Holds (λ s'. All (IsInside w h) s'.nodes)) a.threw (λ _. tt)
        (λ _. InsideBelow-All w h i a.nodes (omega (arith, like.0)) (like.1 w h i b))
