-- ===== src/NetworkGraph/Hues.antt =====
-- `assignColors`: each node, by falling degree, takes the candidate hue that is farthest from the hues
-- of its neighbours. A full turn is 360000.
use tabulum.Prelude.{
  ℕ, zero, suc, ◌+◌, ◌-◌, ◌*◌, ◌%◌, min, String, List, [], ◌∷◌, Option, none, some, ltb,
  if◌then◌else◌, codes,
}
use tabulum.NetworkGraph.Hash.{hash_hue}
use tabulum.NetworkGraph.Graph.{
  Node, Edge, node_id, get, set, Adjacency, adjacency, neighbours, degree,
}
use tabulum.NetworkGraph.Sort.{sort}

abbrev pub turn : ℕ
turn = 360000

abbrev pub golden_angle : ℕ
golden_angle = 137508

abbrev pub Colors : Type 0
Colors = List (String × ℕ)

-- `(baseHue + (i + attempt * 3) * goldenAngle) % 360`
unfoldable pub candidate : ℕ → ℕ → ℕ → ℕ
candidate base i attempt = (base + (i + attempt * 3) * golden_angle) % turn

-- The distance of two hues round the circle.
unfoldable pub hue_dist : ℕ → ℕ → ℕ
hue_dist a b = let diff = (if ltb a b then b - a else a - b) in min diff (turn - diff)

-- `Math.min(...)` of the distances to the hues of a list that is not empty
unfoldable pub min_dist : ℕ → ℕ → List ℕ → ℕ
unfolding hue_dist
min_dist c h [] = hue_dist c h
min_dist c h (k ∷ hs) = min (hue_dist c h) (min_dist c k hs)

-- The hues of the neighbours that have one already.
unfoldable pub neighbour_hues : Colors → List String → List ℕ
unfolding get
neighbour_hues colors [] = []
neighbour_hues colors (k ∷ ks) = elim (get k colors) [
  | none ↦ neighbour_hues colors ks
  | some h ↦ h ∷ neighbour_hues colors ks
]

-- The loop over the attempts that are left, from `attempt` on; `best` is the least distance of the
-- hue chosen so far, `none` standing for -1.
unfoldable pub search_hue : (ℕ → ℕ) → (ℕ → ℕ) → ℕ → ℕ → Option ℕ → ℕ → ℕ
search_hue cand dist zero attempt best hue = hue
search_hue cand dist (suc left) attempt none hue =
    search_hue cand dist left (suc attempt) (some (dist (cand attempt))) (cand attempt)
search_hue cand dist (suc left) attempt (some b) hue =
    search_hue cand dist left (suc attempt)
      (if ltb b (dist (cand attempt)) then some (dist (cand attempt)) else some b)
      (if ltb b (dist (cand attempt)) then cand attempt else hue)

abbrev pub attempts : ℕ
attempts = 12

unfoldable pub best_hue : ℕ → ℕ → List ℕ → ℕ
unfolding candidate min_dist search_hue
best_hue base i [] = candidate base i 0
best_hue base i (h ∷ hs) =
    search_hue (candidate base i) (λ c. min_dist c h hs) attempts 0 none (candidate base i 0)

-- The loop over the sorted nodes, from index `i` on.
unfoldable pub assign_from : ℕ → Adjacency → ℕ → List Node → Colors → Colors
unfolding best_hue neighbour_hues neighbours node_id set
assign_from base adj i [] colors = colors
assign_from base adj i (n ∷ ns) colors =
    assign_from base adj (suc i) ns (
      set (node_id n) (best_hue base i (neighbour_hues colors (neighbours (node_id n) adj))) colors)

-- The hue of the first node, of the greatest degree.
unfoldable pub base_hue : List Node → ℕ
unfolding hash_hue node_id
base_hue [] = 0
base_hue (n ∷ ns) = hash_hue (codes (node_id n)) * 1000

unfoldable pub assign_colors : List Node → List Edge → Colors
unfolding adjacency degree sort base_hue assign_from
assign_colors ns es =
    let adj = adjacency ns es in
    let sorted = sort (degree adj) ns in assign_from (base_hue sorted) adj 0 sorted []
