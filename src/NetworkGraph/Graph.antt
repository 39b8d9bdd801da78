-- ===== src/NetworkGraph/Graph.antt =====
-- The nodes and edges of NetworkGraph.jsx, and the neighbours of each node.
use tabulum.Prelude.{
  ℕ, String, List, [], ◌∷◌, ◌++◌, Option, none, some, Bool, false, ◌||◌, if◌then◌else◌, str_eq,
  truthy, length,
}

pub record Node : Type 0 where
  pub id : Option String
  pub address : String

-- An end of an edge: an id, or the node itself once a renderer has put it there.
pub data End : Type 0 where
  name : String → End
  node : Node → End

pub record Edge : Type 0 where
  pub source : End
  pub target : End

-- `n.id || n.address`
unfoldable pub node_id : Node → String
node_id n = elim n.id [ none ↦ n.address | some s ↦ if truthy s then s else n.address ]

unfoldable pub end_id : End → String
unfolding node_id
end_id (name s) = s
end_id (node n) = node_id n

-- A Map as its entries in the order of insertion.
module _ {ℓ} {V : Type ℓ} where
  unfoldable pub get : String → List (String × V) → Option V
  get k [] = none
  get k ((j, v) ∷ m) = if str_eq j k then some v else get k m

  unfoldable pub set : String → V → List (String × V) → List (String × V)
  set k v [] = (k, v) ∷ []
  set k v ((j, w) ∷ m) = if str_eq j k then (j, v) ∷ m else (j, w) ∷ set k v m

-- A Set in the order of insertion.
unfoldable pub elem : String → List String → Bool
elem k [] = false
elem k (j ∷ s) = str_eq j k || elem k s

unfoldable pub add : String → List String → List String
unfolding elem
add k s = if elem k s then s else s ++ k ∷ []

abbrev pub Adjacency : Type 0
Adjacency = List (String × List String)

-- `if (adjacency.has(a)) adjacency.get(a).add(b)`
unfoldable pub add_neighbour : String → String → Adjacency → Adjacency
unfolding get set add
add_neighbour a b m = elim (get a m) [ none ↦ m | some s ↦ set a (add b s) m ]

unfoldable pub empty_sets : List Node → Adjacency → Adjacency
unfolding set node_id
empty_sets [] m = m
empty_sets (n ∷ ns) m = empty_sets ns (set (node_id n) [] m)

unfoldable pub add_edges : List Edge → Adjacency → Adjacency
unfolding add_neighbour end_id
add_edges [] m = m
add_edges (e ∷ es) m = add_edges es (
    add_neighbour (end_id e.target) (end_id e.source)
      (add_neighbour (end_id e.source) (end_id e.target) m))

unfoldable pub adjacency : List Node → List Edge → Adjacency
unfolding empty_sets add_edges
adjacency ns es = add_edges es (empty_sets ns [])

-- `adjacency.get(id) || []` and its size, `adjacency.get(id)?.size || 0`
unfoldable pub neighbours : String → Adjacency → List String
unfolding get
neighbours k m = elim (get k m) [ none ↦ [] | some s ↦ s ]

unfoldable pub degree : Adjacency → Node → ℕ
unfolding neighbours node_id
degree m n = length (neighbours (node_id n) m)
