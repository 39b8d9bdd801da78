-- ===== src/OgImage/Pairs.antt =====
-- The connections of gen-og-image.js against the pairs of near nodes.
use tabulum.Prelude.{
  ℕ, zero, suc, ◌+◌, ◌<◌, List, [], ◌∷◌, ◌++◌, Option, none, some, ◌&&◌, get_elem?, ◌≡◌, refl,
  arith, ltb, ◌==◌, if◌then◌else◌, ◌∙◌, ap,
}
use tabulum.Prelude.Floats.{Floats, less}
use tabulum.OgImage.Config.{connection_dist}
use tabulum.OgImage.Nodes.{Node}
use tabulum.OgImage.Edges.{Connection, distance, connect, connect_from, connections}

module _ {R : Type 0} ⦃f : Floats R⦄ where
  -- The distance kept with the first connection of `i` and `j`.
  pub kept : ℕ → ℕ → List (Connection R) → Option R
  kept i j [] = none
  kept i j (c ∷ cs) = if c.i == i && c.j == j then some c.dist else kept i j cs

  pub if_near : Option (Node R) → Option (Node R) → Option R
  if_near none b = none
  if_near (some a) none = none
  if_near (some a) (some b) =
      if less (distance a b) connection_dist then some (distance a b) else none

  -- The distance of the nodes `i` and `j`, if both exist, `i` comes first and they are near.
  pub near : ℕ → ℕ → List (Node R) → Option R
  near i j nodes = if ltb i j then if_near (get_elem? nodes i) (get_elem? nodes j) else none

  or_else : Option R → Option R → Option R
  or_else none y = y
  or_else (some x) y = some x

  kept-append :
      (i j : ℕ) (cs ds : List (Connection R))
      → kept i j (cs ++ ds) ≡ or_else (kept i j cs) (kept i j ds)
  unfolding kept or_else
  kept-append i j [] ds = refl
  kept-append i j (c ∷ cs) ds = ground (arith, kept-append i j cs ds)

  -- The element `j` of a list whose first element has index `k`.
  from : ℕ → ℕ → List (Node R) → Option (Node R)
  from k j [] = none
  from k j (n ∷ ns) = if k == j then some n else from (suc k) j ns

  from-before : (k j : ℕ) (ns : List (Node R)) → j < k → from k j ns ≡ none
  unfolding from
  from-before k j [] h = refl
  from-before k j (n ∷ ns) h = ground (arith, from-before (suc k) j ns)

  from-get : (k j : ℕ) (ns : List (Node R)) → from k (k + j) ns ≡ get_elem? ns j
  unfolding from
  from-get k j [] = refl
  from-get k zero (n ∷ ns) = ground arith
  from-get k (suc j) (n ∷ ns) = ground (arith, from-get (suc k) j ns)

  from_zero : (j : ℕ) (ns : List (Node R)) → from 0 j ns ≡ get_elem? ns j
  from_zero j ns = ap (λ i. from 0 i ns) (omega arith) ∙ from-get 0 j ns

  kept-connect :
      (i j k : ℕ) (a : Node R) (h : ℕ) (ns : List (Node R))
      → kept i j (connect h a k ns) ≡ (if h == i then if_near (some a) (from k j ns) else none)
  unfolding kept connect if_near from
  kept-connect i j k a h [] = ground arith
  kept-connect i j k a h (n ∷ ns) =
      ground (arith, kept-connect i j (suc k) a h ns, from-before (suc k) j ns)

  kept-connect_from :
      (i j k : ℕ) (ns : List (Node R))
      → kept i j (connect_from k ns)
        ≡ (if ltb i j then if_near (from k i ns) (from k j ns) else none)
  unfolding connect_from kept from if_near or_else
  kept-connect_from i j k [] = ground arith
  kept-connect_from i j k (n ∷ ns) =
      kept-append i j (connect k n (suc k) ns) (connect_from (suc k) ns)
      ∙ rw (kept-connect i j (suc k) n k ns) (
          rw (kept-connect_from i j (suc k) ns)
            (ground (arith, from-before (suc k) i ns, from-before (suc k) j ns)))

  -- There is a connection of `i` and `j` exactly where `i` comes before `j`, both are nodes and they
  -- are nearer than the limit; and it keeps their distance.
  pub kept-connections :
      (nodes : List (Node R)) (i j : ℕ) → kept i j (connections nodes) ≡ near i j nodes
  unfolding connections near
  kept-connections nodes i j =
      kept-connect_from i j 0 nodes ∙ rw (from_zero i nodes) (rw (from_zero j nodes) refl)
