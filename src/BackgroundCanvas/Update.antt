-- ===== src/BackgroundCanvas/Update.antt =====
-- `update` of BackgroundCanvas.jsx: one frame of the nodes and the pulses.
use tabulum.Prelude.{
  ℕ, zero, suc, List, [], ◌∷◌, Option, none, some, Bool, true, false, not, ◌&&◌, if◌then◌else◌, ltb,
  length, get_elem?, set,
}
use tabulum.Prelude.Floats.{Floats, ◌⊕◌, ◌⊖◌, ◌⊗◌, ◌⊘◌, less, greatest, whole}
use tabulum.BackgroundCanvas.Config.{
  max_nodes, spawn_rate, pulse_speed, mouse_radius, ripple_duration,
}
use tabulum.BackgroundCanvas.Nodes.{Node, Pulse, Scene, Outcome, done, thrown, random, spawn_node}
use tabulum.BackgroundCanvas.Motion.{move}
use tabulum.BackgroundCanvas.Messages.{set_glow, message}

-- The pulses and nodes after the loop over the pulses, and whether it threw.
pub record Advance (R : Type 0) : Type 0 where
  pub pulses : List (Pulse R)
  pub nodes : List (Node R)
  pub threw : Bool

module _ {R : Type 0} ⦃f : Floats R⦄ where
  -- Math.random is called only while there is room for another node.
  unfoldable pub maybe_spawn : (ℕ → R) → Scene R → Outcome R
  unfolding spawn_node
  maybe_spawn rand s =
      let (r, s') = random rand s in
      if ltb (length s.nodes) max_nodes
      then (if less r spawn_rate then spawn_node rand s' else done s')
      else done s

  -- The loop over the nodes, with the rounds left.
  unfoldable pub move_from : (ℕ → R) → ℕ → ℕ → Scene R → Scene R
  unfolding move message
  move_from rand zero i s = s
  move_from rand (suc left) i s = elim (get_elem? s.nodes i) [
    | none ↦ s
    | some n ↦
        let (n', s') = move rand i n s in
        move_from rand left (suc i) (message rand i n' (record s' { nodes = set s'.nodes i n' }))
  ]

  -- A pulse that is alive, on its way from `a` to `b`; the mouse bends its path.
  unfoldable pub fly : Scene R → Node R → Node R → Pulse R → Pulse R
  fly s a b p =
      let pdx = b.x ⊖ a.x in
      let pdy = b.y ⊖ a.y in
      let pdist = f.sqrt (pdx ⊗ pdx ⊕ pdy ⊗ pdy) in
      let progress = p.progress ⊕ pulse_speed ⊘ greatest pdist (whole 1) in
      let px = a.x ⊕ pdx ⊗ progress in
      let py = a.y ⊕ pdy ⊗ progress in
      let pmx = s.mouse_x ⊖ px in
      let pmy = s.mouse_y ⊖ py in
      let pm_dist = f.sqrt (pmx ⊗ pmx ⊕ pmy ⊗ pmy) in
      let bend = (whole 1 ⊖ pm_dist ⊘ mouse_radius) ⊗ whole 12 in
      let bent = less pm_dist mouse_radius && less (whole 0) pm_dist in
      let arrived = f.le (whole 1) progress in
      record p {
        x = if bent then px ⊕ pmx ⊘ pm_dist ⊗ bend else px;
        y = if bent then py ⊕ pmy ⊘ pm_dist ⊗ bend else py;
        progress = progress;
        alive = not arrived;
        age = if arrived then 0 else suc p.age;
      }

  -- The index of the node that a pulse is on its way to, and the nodes at its ends; `none` where one is
  -- undefined.
  unfoldable pub ends : List (Node R) → Pulse R → Option (ℕ × Node R × Node R)
  ends nodes p = elim p.to_node [
    | none ↦ none
    | some t ↦ elim (get_elem? nodes p.from_node) [
      | none ↦ none
      | some a ↦ elim (get_elem? nodes t) [ none ↦ none | some b ↦ some (t, a, b) ]
    ]
  ]

  -- One round of the loop over the pulses; it throws where an end is undefined.
  unfoldable pub advance : Scene R → List (Node R) → Pulse R → Option (Pulse R × List (Node R))
  unfolding fly set_glow ends
  advance s nodes p =
      if p.alive
      then elim (ends nodes p) [
        | none ↦ none
        | some (t, a, b) ↦
            let p' = fly s a b p in
            some (p', if p'.alive then nodes else set_glow (whole 1) t nodes)
      ]
      else some (record p { age = suc p.age }, nodes)

  unfoldable pub advance_all : Scene R → List (Pulse R) → List (Node R) → Advance R
  unfolding advance
  advance_all s [] nodes = record { pulses = []; nodes = nodes; threw = false }
  advance_all s (p ∷ ps) nodes = elim (advance s nodes p) [
    | none ↦ record { pulses = record p { age = suc p.age } ∷ ps; nodes = nodes; threw = true }
    | some (p', nodes') ↦
        let rest = advance_all s ps nodes' in record rest { pulses = p' ∷ rest.pulses }
  ]

  -- The last loop, which takes out the pulses whose ripple is over.
  unfoldable pub remove_old : List (Pulse R) → List (Pulse R)
  remove_old [] = []
  remove_old (p ∷ ps) =
      if not p.alive && ltb ripple_duration p.age then remove_old ps else p ∷ remove_old ps

  unfoldable pub finish : Scene R → Outcome R
  unfolding advance_all remove_old
  finish s =
      let a = advance_all s s.pulses s.nodes in
      if a.threw
      then thrown (record s { pulses = a.pulses; nodes = a.nodes })
      else done (record s { pulses = remove_old a.pulses; nodes = a.nodes })

  unfoldable pub update : (ℕ → R) → Scene R → Outcome R
  unfolding maybe_spawn move_from finish
  update rand s = elim (maybe_spawn rand (record s { tick = suc s.tick })) [
    | thrown s' ↦ thrown s'
    | done s' ↦ finish (move_from rand (length s'.nodes) 0 s')
  ]
