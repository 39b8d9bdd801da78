-- ===== src/NetworkGraph/Coloring.antt =====
-- Every node of the graph gets a colour.
use tabulum.Prelude.{
  ℕ, suc, ◌<◌, String, List, [], ◌∷◌, Option, none, some, All, arith, ltb, Bool-cases, inl, inr,
  str_eq,
}
use text.Mathlib.TextPositions.{eq_refl}
use tabulum.NetworkGraph.Graph.{
  Node, Edge, node_id, get, set, Adjacency, adjacency, neighbours, degree,
}
use tabulum.NetworkGraph.Sort.{insert, sort}
use tabulum.NetworkGraph.Hues.{
  turn, Colors, best_hue, neighbour_hues, assign_from, base_hue, assign_colors,
}
use tabulum.NetworkGraph.Choice.{best_hue-lt}

-- A hue that has been found, below a full turn.
abbrev pub IsHue : Option ℕ → Type 0
IsHue none = ⊥
IsHue (some h) = h < turn

set-IsHue : (k : String) (v : ℕ) (m : Colors) → v < turn → IsHue (get k (set k v m))
unfolding get set
set-IsHue k v [] h = rw (eq_refl k) h
set-IsHue k v ((j, w) ∷ m) h = elim (Bool-cases (str_eq j k)) [
  | inl same ↦ rw same (rw same h)
  | inr other ↦ rw other (rw other (set-IsHue k v m h))
]

set-keeps :
    (j k : String) (v : ℕ) (m : Colors) → v < turn → IsHue (get j m) → IsHue (get j (set k v m))
unfolding get set
set-keeps j k v [] h g = absurd g
set-keeps j k v ((i, w) ∷ m) h g = elim (Bool-cases (str_eq i j)) [
  | inl same ↦ ground (arith, set-keeps j k v m h)
  | inr other ↦ ground (arith, set-keeps j k v m h)
]

assign_from-keeps :
    (base i : ℕ) (adj : Adjacency) (ns : List Node) (colors : Colors) (j : String)
    → IsHue (get j colors)
    → IsHue (get j (assign_from base adj i ns colors))
unfolding assign_from
assign_from-keeps base i adj [] colors j g = g
assign_from-keeps base i adj (n ∷ ns) colors j g =
    let hue = best_hue base i (neighbour_hues colors (neighbours (node_id n) adj)) in
    assign_from-keeps base (suc i) adj ns (set (node_id n) hue colors) j (
      set-keeps j (node_id n) hue colors
        (best_hue-lt base i (neighbour_hues colors (neighbours (node_id n) adj))) g)

assign_from-IsHue :
    (base i : ℕ) (adj : Adjacency) (ns : List Node) (colors : Colors)
    → All (λ n. IsHue (get (node_id n) (assign_from base adj i ns colors))) ns
unfolding assign_from
assign_from-IsHue base i adj [] colors = tt
assign_from-IsHue base i adj (n ∷ ns) colors =
    let hues = neighbour_hues colors (neighbours (node_id n) adj) in
    let hue = best_hue base i hues in
    (
      assign_from-keeps base (suc i) adj ns (set (node_id n) hue colors) (node_id n)
          (set-IsHue (node_id n) hue colors (best_hue-lt base i hues)),
      assign_from-IsHue base (suc i) adj ns (set (node_id n) hue colors),
    )

module _ {ℓ κ} {A : Type ℓ} (P : A → Type κ) (key : A → ℕ) where
  All-insert : (x : A) (ys : List A) → All P (insert key x ys) → P x × All P ys
  unfolding insert
  All-insert x [] a = a
  All-insert x (y ∷ ys) a = elim (Bool-cases (ltb (key x) (key y))) [
    | inl lower ↦
        let b : P y × All P (insert key x ys) = rw lower at a in
        let r = All-insert x ys b.1 in (r.0, (b.0, r.1))
    | inr upper ↦ rw upper at a
  ]

  All-sort : (xs : List A) → All P (sort key xs) → All P xs
  unfolding sort
  All-sort [] a = tt
  All-sort (x ∷ xs) a = let both = All-insert x (sort key xs) a in (both.0, All-sort xs both.1)

-- Every node gets a hue below a full turn, whatever the edges are.
pub assign_colors-IsHue :
    (ns : List Node) (es : List Edge) → All (λ n. IsHue (get (node_id n) (assign_colors ns es))) ns
unfolding assign_colors
assign_colors-IsHue ns es =
    let sorted = sort (degree (adjacency ns es)) ns in
    All-sort (λ n. IsHue (get (node_id n) (assign_colors ns es))) (degree (adjacency ns es)) ns
      (assign_from-IsHue (base_hue sorted) 0 (adjacency ns es) sorted [])
