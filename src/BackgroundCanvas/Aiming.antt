-- ===== src/BackgroundCanvas/Aiming.antt =====
-- Where the pulses of BackgroundCanvas.jsx go.
use tabulum.Prelude.{
  ◌||◌, ◌==◌, not, All-append, none, zero, refl, some-length, set, length-set, inr, [], ◌∷◌, ◌+◌,
  ltb, inl, arith, ◌≤◌, ◌≢◌, some, if_cases, get_elem?, Option-cases, All, ◌≡◌, ◌<◌, suc, length,
  Option, List, ℕ,
}
use tabulum.Prelude.Floats.{◌⊕◌, ◌⊖◌, less, Floats, ◌⊗◌, whole}
use tabulum.BackgroundCanvas.Config.{
  connection_dist_sq, message_rate, message_min_age, max_nodes, fade_in_frames,
}
use tabulum.BackgroundCanvas.Nodes.{Node, Pulse, Scene, random}
use tabulum.BackgroundCanvas.Motion.{move}
use tabulum.BackgroundCanvas.Messages.{candidates, set_glow, send_pulse, answer, message}
use tabulum.BackgroundCanvas.Update.{move_from}

module _ {R : Type 0} ⦃f : Floats R⦄ where
  -- What is asked of Math.random and Math.floor: an index drawn for a list falls within it.
  abbrev pub IsUnit : (ℕ → R) → Type 0
  IsUnit rand = (k n : ℕ) → 0 < n → n < 65536 → f.floor (rand k ⊗ whole n) < n

-- The index `t` is that of a node other than `i`.
abbrev pub IsTarget : ℕ → ℕ → Option ℕ → Type 0
IsTarget n i none = ⊥
IsTarget n i (some t) = (i < n) × (t < n) × (i ≢ t)

abbrev pub Aimed : {R : Type 0} → ℕ → Pulse R → Type 0
Aimed n p = IsTarget n p.from_node p.to_node

-- There are at most 40 nodes, and every pulse is on its way from one node to another.
abbrev pub IsSound : {R : Type 0} → Scene R → Type 0
IsSound s = (length s.nodes ≤ max_nodes) × All (Aimed (length s.nodes)) s.pulses

-- An index below `n` other than `i`.
abbrev IsOther : ℕ → ℕ → ℕ → Type 0
IsOther n i k = (k < n) × (i ≢ k)

pick-IsTarget :
    (n i j : ℕ) (cs : List ℕ)
    → i < n
    → All (IsOther n i) cs
    → j < length cs
    → IsTarget n i (get_elem? cs j)
pick-IsTarget n i j [] h a l = absurd (omega arith)
pick-IsTarget n i zero (c ∷ cs) h a l = (h, a.0.0, a.0.1)
pick-IsTarget n i (suc j) (c ∷ cs) h a l = pick-IsTarget n i j cs h a.1 (omega arith)

-- What a target is.
pub target-some :
    (n i : ℕ) (o : Option ℕ) → IsTarget n i o → (t : ℕ) × (o ≡ some t) × (i < n) × (t < n)
target-some n i none h = absurd h
target-some n i (some t) h = (t, refl, h.0, h.1)

pub IsTarget-more : (n i : ℕ) (o : Option ℕ) → IsTarget n i o → IsTarget (n + 1) i o
IsTarget-more n i none h = h
IsTarget-more n i (some t) h = (omega (arith, h.0), omega (arith, h.1), h.2)

module _ {R : Type 0} ⦃f : Floats R⦄ where
  candidates-IsOther :
      (n i : ℕ) (m : Node R) (k : ℕ) (bs : List (Node R))
      → k + length bs ≡ n
      → All (IsOther n i) (candidates i m k bs)
  unfolding candidates
  candidates-IsOther n i m k [] l = tt
  candidates-IsOther n i m k (b ∷ bs) l =
      let rest = candidates-IsOther n i m (suc k) bs (omega arith) in
      if_cases (All (IsOther n i))
        (i == k
          || ltb b.age fade_in_frames
          || not (less ((b.x ⊖ m.x) ⊗ (b.x ⊖ m.x) ⊕ (b.y ⊖ m.y) ⊗ (b.y ⊖ m.y)) connection_dist_sq))
        {y = k ∷ candidates i m (suc k) bs} (λ _. rest) (λ e. ((omega arith, ground arith), rest))

  pub length-set_glow : (g : R) (i : ℕ) (ns : List (Node R)) → length (set_glow g i ns) ≡ length ns
  unfolding set_glow
  length-set_glow g i ns = elim (Option-cases (get_elem? ns i)) [
    | inl e ↦ rw (e, set_glow) refl
    | inr (n, e) ↦ rw (e, set_glow) (length-set {0} ns i (record n { glow = g }))
  ]

  candidates-length :
      (i : ℕ) (m : Node R) (k : ℕ) (bs : List (Node R)) → length (candidates i m k bs) ≤ length bs
  unfolding candidates
  candidates-length i m k [] = omega arith
  candidates-length i m k (b ∷ bs) = ground (arith, candidates-length i m (suc k) bs)

  send_pulse-IsSound :
      (i : ℕ) (m : Node R) (to : Option ℕ) (s : Scene R)
      → IsTarget (length s.nodes) i to
      → IsSound s
      → IsSound (send_pulse i m to s)
  unfolding send_pulse
  send_pulse-IsSound i m to s h v =
      (rw (length-set_glow (whole 1) i s.nodes)
        (v.0, All-append (Aimed (length s.nodes)) s.pulses _ v.1 (h, tt)))

  answer-IsSound :
      (rand : ℕ → R) (i : ℕ) (m : Node R) (cs : List ℕ) (s : Scene R)
      → IsUnit rand
      → i < length s.nodes
      → length cs < 65536
      → All (IsOther (length s.nodes) i) cs
      → IsSound s
      → IsSound (answer rand i m cs s)
  unfolding answer
  answer-IsSound rand i m [] s u h l a v = v
  answer-IsSound rand i m (c ∷ cs) s u h l a v =
      let j = f.floor (rand s.drawn ⊗ whole (length (c ∷ cs))) in
      send_pulse-IsSound i m (get_elem? (c ∷ cs) j) (random rand s).1
        (pick-IsTarget (length s.nodes) i j (c ∷ cs) h a
          (u s.drawn (length (c ∷ cs)) (omega arith) l))
        v

  message-IsSound :
      (rand : ℕ → R) (i : ℕ) (m : Node R) (s : Scene R)
      → IsUnit rand
      → i < length s.nodes
      → IsSound s
      → IsSound (message rand i m s)
  unfolding message
  message-IsSound rand i m s u h v =
      let s' = (random rand s).1 in
      let cs = candidates i m 0 s.nodes in
      if_cases IsSound (ltb message_min_age m.age)
        (λ _.
          if_cases IsSound (less (rand s.drawn) message_rate)
            (λ _.
              answer-IsSound rand i m cs s' u h
                (omega (arith, candidates-length i m 0 s.nodes, v.0))
                (candidates-IsOther (length s.nodes) i m 0 s.nodes (omega arith)) v)
            (λ _. v))
        (λ _. v)

  -- Nodes that change in number of none, and pulses that do not change.
  IsSound-same :
      (s s' : Scene R)
      → length s'.nodes ≡ length s.nodes
      → s'.pulses ≡ s.pulses
      → IsSound s
      → IsSound s'
  IsSound-same s s' e q v = rw (e, q) v

  pub move_from-IsSound :
      (rand : ℕ → R) (left i : ℕ) (s : Scene R)
      → IsUnit rand
      → IsSound s
      → IsSound (move_from rand left i s)
  unfolding move_from move
  move_from-IsSound rand zero i s u v = v
  move_from-IsSound rand (suc left) i s u v = elim (Option-cases (get_elem? s.nodes i)) [
    | inl e ↦ rw (e, move_from) v
    | inr (n, e) ↦
        let n' = (move rand i n s).0 in
        let s' = (move rand i n s).1 in
        let s'' = record s' { nodes = set s'.nodes i n' } in
        let l = length-set {0} s.nodes i n' in
        rw (e, move_from)
          (move_from-IsSound rand left (suc i) (message rand i n' s'') u (
            message-IsSound rand i n' s'' u (omega (arith, l, some-length s.nodes i n e))
              (IsSound-same s s'' l refl v)))
  ]
