-- ===== src/BackgroundCanvas/Messages.antt =====
-- When a node of BackgroundCanvas.jsx sends a pulse, and to which.
use tabulum.Prelude.{
  ℕ, suc, List, [], ◌∷◌, ◌++◌, Option, none, some, true, not, ◌||◌, if◌then◌else◌, ◌==◌, ltb,
  length, get_elem?, set,
}
use tabulum.Prelude.Floats.{Floats, ◌⊕◌, ◌⊖◌, ◌⊗◌, less, whole}
use tabulum.BackgroundCanvas.Config.{
  connection_dist_sq, fade_in_frames, message_min_age, message_rate,
}
use tabulum.BackgroundCanvas.Nodes.{Node, Scene, random}

module _ {R : Type 0} ⦃f : Floats R⦄ where
  -- The loop over `k`, for the node `n` with index `i`.
  unfoldable pub candidates : ℕ → Node R → ℕ → List (Node R) → List ℕ
  candidates i n k [] = []
  candidates i n k (b ∷ bs) =
      let bx = b.x ⊖ n.x in
      let by = b.y ⊖ n.y in
      if i == k || ltb b.age fade_in_frames || not (less (bx ⊗ bx ⊕ by ⊗ by) connection_dist_sq)
      then candidates i n (suc k) bs
      else k ∷ candidates i n (suc k) bs

  unfoldable pub set_glow : R → ℕ → List (Node R) → List (Node R)
  set_glow glow i nodes = elim (get_elem? nodes i) [
    | none ↦ nodes
    | some n ↦ set nodes i (record n { glow = glow })
  ]

  unfoldable pub send_pulse : ℕ → Node R → Option ℕ → Scene R → Scene R
  unfolding set_glow
  send_pulse i n to s = record s {
    pulses =
        s.pulses
        ++ record {
          from_node = i;
          to_node = to;
          x = n.x;
          y = n.y;
          progress = whole 0;
          alive = true;
          age = 0;
        }
          ∷ [];
    nodes = set_glow (whole 1) i s.nodes;
  }

  -- `if (candidates.length > 0) sendPulse(…)`
  unfoldable pub answer : (ℕ → R) → ℕ → Node R → List ℕ → Scene R → Scene R
  unfolding send_pulse
  answer rand i n [] s = s
  answer rand i n (c ∷ cs) s =
      let (r, s') = random rand s in
      send_pulse i n (get_elem? (c ∷ cs) (f.floor (r ⊗ whole (length (c ∷ cs))))) s'

  -- Math.random is called for a node that is old enough only.
  unfoldable pub message : (ℕ → R) → ℕ → Node R → Scene R → Scene R
  unfolding candidates answer
  message rand i n s =
      let (r, s') = random rand s in
      if ltb message_min_age n.age
      then (if less r message_rate then answer rand i n (candidates i n 0 s.nodes) s' else s')
      else s
