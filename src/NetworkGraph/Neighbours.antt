-- ===== src/NetworkGraph/Neighbours.antt =====
-- The adjacency of the graph against the list of its edges.
use tabulum.Prelude.{
  if_cases, String, List, [], ◌∷◌, ◌++◌, none, some, Bool, true, false, ◌||◌, ◌&&◌, ◌≡◌, refl,
  arith, if◌then◌else◌, Bool-cases, Option-cases, inl, inr, str_eq,
}
use text.Mathlib.TextEquality.{eq_iff}
use tabulum.NetworkGraph.Graph.{
  Node, Edge, node_id, end_id, get, set, elem, add, Adjacency, add_neighbour, empty_sets, add_edges,
  adjacency, neighbours,
}

-- Whether a node has the id, and whether an edge joins the two ids, in either direction.
pub known : String → List Node → Bool
known k [] = false
known k (n ∷ ns) = str_eq (node_id n) k || known k ns

pub joined : String → String → List Edge → Bool
joined k x [] = false
joined k x (e ∷ es) =
    (str_eq (end_id e.source) k && str_eq (end_id e.target) x)
    || (str_eq (end_id e.target) k && str_eq (end_id e.source) x)
    || joined k x es

has : String → Adjacency → Bool
has k m = elim (get k m) [ none ↦ false | some s ↦ true ]

get-set {ℓ} :
    {V : Type ℓ} (k a : String) (v : V) (m : List (String × V))
    → get k (set a v m) ≡ (if str_eq a k then some v else get k m)
unfolding get set
get-set k a v [] = refl
get-set k a v ((j, w) ∷ m) = ground (arith, eq_iff a k, eq_iff j a, eq_iff j k, get-set k a v m)

elem-append : (x b : String) (s : List String) → elem x (s ++ b ∷ []) ≡ (elem x s || str_eq b x)
unfolding elem
elem-append x b [] = ground arith
elem-append x b (j ∷ s) = ground (arith, elem-append x b s)

elem-add : (x b : String) (s : List String) → elem x (add b s) ≡ (elem x s || str_eq b x)
unfolding add
elem-add x b s = elim (Bool-cases (elem b s)) [
  | inl old ↦ rw old (ground (arith, eq_iff b x))
  | inr new ↦ rw new (elem-append x b s)
]

neighbours-set :
    (k a : String) (v : List String) (m : Adjacency)
    → neighbours k (set a v m) ≡ (if str_eq a k then v else neighbours k m)
unfolding neighbours
neighbours-set k a v m = rw (get-set k a v m, neighbours) (ground arith)

-- An id that has no entry is left out, and the new neighbour joins the set of one that has.
add_neighbour-none : (a b : String) (m : Adjacency) → get a m ≡ none → add_neighbour a b m ≡ m
unfolding add_neighbour
add_neighbour-none a b m e = rw (e, add_neighbour) refl

add_neighbour-some :
    (a b : String) (s : List String) (m : Adjacency)
    → get a m ≡ some s
    → (add_neighbour a b m ≡ set a (add b s) m) × (neighbours a m ≡ s) × (has a m ≡ true)
unfolding add_neighbour neighbours has
add_neighbour-some a b s m e =
    (rw (e, add_neighbour) refl, rw (e, neighbours) refl, rw (e, has) refl)

has-none : (a : String) (m : Adjacency) → get a m ≡ none → has a m ≡ false
unfolding has
has-none a m e = rw (e, has) refl

elem-add_neighbour :
    (k x a b : String) (m : Adjacency)
    → elem x (neighbours k (add_neighbour a b m))
      ≡ (elem x (neighbours k m) || (has k m && str_eq a k && str_eq b x))
elem-add_neighbour k x a b m = elim (Option-cases (get a m)) [
  | inl e ↦ rw (add_neighbour-none a b m e) (ground (arith, eq_iff a k, has-none a m e))
  | inr (s, e) ↦ rw ((add_neighbour-some a b s m e).0) (
      rw (neighbours-set k a (add b s) m)
        (grind (arith, eq_iff a k, elem-add x b s, add_neighbour-some a b s m e)))
]

has-add_neighbour : (k a b : String) (m : Adjacency) → has k (add_neighbour a b m) ≡ has k m
unfolding add_neighbour has
has-add_neighbour k a b m = elim (Option-cases (get a m)) [
  | inl e ↦ rw (e, has) refl
  | inr (s, e) ↦ rw (e, has) (rw (get-set k a (add b s) m) (ground (arith, eq_iff a k)))
]

has-empty_sets :
    (k : String) (ns : List Node) (m : Adjacency)
    → has k (empty_sets ns m) ≡ (known k ns || has k m)
unfolding empty_sets known has
has-empty_sets k [] m = refl
has-empty_sets k (n ∷ ns) m =
    rw (has-empty_sets k ns (set (node_id n) [] m))
      (rw (get-set k (node_id n) [] m, has) (ground arith))

elem-empty_sets :
    (k x : String) (ns : List Node) (m : Adjacency)
    → elem x (neighbours k m) ≡ false
    → elem x (neighbours k (empty_sets ns m)) ≡ false
unfolding empty_sets elem
elem-empty_sets k x [] m h = h
elem-empty_sets k x (n ∷ ns) m h = elem-empty_sets k x ns (set (node_id n) [] m) (
    rw (neighbours-set k (node_id n) [] m)
      (if_cases (λ l. elem x l ≡ false) (str_eq (node_id n) k) (λ _. refl) (λ _. h)))

elem-add_edges :
    (k x : String) (es : List Edge) (m : Adjacency)
    → elem x (neighbours k (add_edges es m))
      ≡ (elem x (neighbours k m) || (has k m && joined k x es))
unfolding add_edges joined
elem-add_edges k x [] m = ground arith
elem-add_edges k x (e ∷ es) m =
    simp (elem-add_edges k x es, elem-add_neighbour, has-add_neighbour) (ground arith)

-- The neighbours of an id are the ids that an edge joins it to, in either direction, and an id that no
-- node has gets none.
pub neighbours-adjacency :
    (ns : List Node) (es : List Edge) (k x : String)
    → elem x (neighbours k (adjacency ns es)) ≡ (known k ns && joined k x es)
unfolding adjacency neighbours has
neighbours-adjacency ns es k x =
    rw (elem-add_edges k x es (empty_sets ns []))
      (rw (elem-empty_sets k x ns [] refl) (rw (has-empty_sets k ns []) (ground arith)))
