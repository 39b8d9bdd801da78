-- ===== src/OgImage/Lights.antt =====
-- The pulses, the glow and the highlighted edges of gen-og-image.js.
use tabulum.Prelude.{
  ℕ, zero, suc, ◌/◌, List, [], ◌∷◌, ◌++◌, Option, none, some, Bool, false, ◌||◌, if◌then◌else◌,
  ◌==◌, leb, ltb, length, get_elem?, set,
}
use tabulum.Prelude.Floats.{Floats, ◌⊕◌, ◌⊗◌, whole, dec}
use tabulum.OgImage.Random.{random}
use tabulum.OgImage.Nodes.{Node}
use tabulum.OgImage.Edges.{Connection}

-- A set of indices.
unfoldable pub elem : ℕ → List ℕ → Bool
elem k [] = false
elem k (j ∷ js) = j == k || elem k js

unfoldable pub add : ℕ → List ℕ → List ℕ
unfolding elem
add k js = if elem k js then js else js ++ k ∷ []

abbrev pub glowing : List ℕ
glowing = 4 ∷ 8 ∷ 15 ∷ 24 ∷ 33 ∷ []

pub record Pulse (R : Type 0) : Type 0 where
  pub src : ℕ
  pub dst : ℕ
  pub progress : R

-- What the loop over the candidates changes.
pub record Scene (R : Type 0) : Type 0 where
  pub nodes : List (Node R)
  pub pulses : List (Pulse R)
  pub used : List ℕ

module _ {R : Type 0} ⦃f : Floats R⦄ where
  abbrev pub pulse_candidates : List (ℕ × R)
  pulse_candidates = (2, dec 55 100) ∷ (18, dec 35 100) ∷ (28, dec 7 10) ∷ (9, dec 5 10) ∷ []

  -- The other end of a connection of `src`.
  unfoldable pub other_end : ℕ → Connection R → Option ℕ
  other_end src c = if c.i == src then some c.j else if c.j == src then some c.i else none

  -- The loop over the connections: the first free other end.
  unfoldable pub free_end : ℕ → List ℕ → List (Connection R) → Option ℕ
  unfolding other_end elem
  free_end src used [] = none
  free_end src used (c ∷ cs) = elim (other_end src c) [
    | none ↦ free_end src used cs
    | some dst ↦ if elem dst used then free_end src used cs else some dst
  ]

  unfoldable pub set_glow : R → ℕ → List (Node R) → List (Node R)
  set_glow glow i nodes = elim (get_elem? nodes i) [
    | none ↦ nodes
    | some n ↦ set nodes i (record n { glow = glow })
  ]

  unfoldable pub try_pulse : List (Connection R) → ℕ → R → Scene R → Scene R
  unfolding elem free_end set_glow add
  try_pulse conns src progress s =
      if leb (length s.nodes) src || elem src s.used then s else elim (free_end src s.used conns) [
        | none ↦ s
        | some dst ↦ record {
          nodes = set_glow (dec 85 100) src s.nodes;
          pulses = s.pulses ++ record { src = src; dst = dst; progress = progress } ∷ [];
          used = add dst (add src s.used);
        }
      ]

  unfoldable pub try_pulses : List (Connection R) → List (ℕ × R) → Scene R → Scene R
  unfolding try_pulse
  try_pulses conns [] s = s
  try_pulses conns ((src, progress) ∷ more) s =
      try_pulses conns more (try_pulse conns src progress s)

  unfoldable pub send_pulses : List (Connection R) → List (Node R) → Scene R
  unfolding try_pulses
  send_pulses conns nodes =
      try_pulses conns pulse_candidates (record { nodes = nodes; pulses = []; used = [] })

  -- The loop over the indices that glow; `random` is called for those that exist.
  unfoldable pub add_glow : List ℕ → List (Node R) → ℕ → List (Node R) × ℕ
  unfolding random set_glow
  add_glow [] nodes seed = (nodes, seed)
  add_glow (k ∷ ks) nodes seed =
      let (r, s) = random seed in
      if ltb k (length nodes)
      then add_glow ks (set_glow (dec 3 10 ⊕ r ⊗ dec 3 10) k nodes) s
      else add_glow ks nodes seed

-- The numbers are named here, since no argument has their type.
module _ (R : Type 0) ⦃f : Floats R⦄ where
  -- The loop that draws edges to highlight, out of `n`, with the rounds left.
  unfoldable pub highlight : ℕ → ℕ → List ℕ → ℕ → List ℕ
  unfolding random add
  highlight n zero chosen seed = chosen
  highlight n (suc left) chosen seed =
      let (r, s) = random seed in highlight n left (add (f.floor (r ⊗ whole n)) chosen) s

module _ {R : Type 0} ⦃f : Floats R⦄ where
  unfoldable pub highlight_edges : List (Connection R) → List ℕ
  unfolding highlight
  highlight_edges conns = highlight R (length conns) (length conns / 6) [] 99
