-- ===== src/NetworkGraph/Ends.antt =====
-- The lines of the 2D view run between the circles of the nodes that their edges name.
use tabulum.Prelude.{
  some-length, subst, suc, zero, ℕ, String, List, [], ◌∷◌, ◌++◌, Option, none, some, true, false,
  ◌≡◌, refl, sym, ap, arith, map, length, get_elem?, get_elem?-some, Option-cases, inl, inr,
}
use tabulum.Prelude.Objects.{elem}
use tabulum.NetworkGraph.Scales.{RawNode, RawEdge}
use tabulum.NetworkGraph.Drag.{Body}
use tabulum.NetworkGraph.Layout.{
  point_of, Point, Segment, ends_of, link_ends, segment_of, segments_of, place_marks,
}

abbrev pub ids_of : List RawNode → List String
ids_of ns = map (λ (n : RawNode). n.address) ns

-- d3 takes a node of that id, and finds one where there is one.
pub record IsFinder (find_node : List String → String → Option ℕ) : Type 0 where
  pub found :
      (ids : List String) (id : String) (i : ℕ)
      → find_node ids id ≡ some i
      → get_elem? ids i ≡ some id
  pub complete : (ids : List String) (id : String) → find_node ids id ≡ none → elem id ids ≡ false

-- Every edge joins two nodes of the network.
abbrev pub AreListed : List RawNode → List RawEdge → Type 0
AreListed ns [] = Unit
AreListed ns (e ∷ es) =
    (elem e.from (ids_of ns) ≡ true) × (elem e.to (ids_of ns) ≡ true) × AreListed ns es

module _ {R : Type 0} where
  -- The segment runs between the circles of two nodes with the ids that the edge names.
  pub record Joins (ns : List RawNode) (circles : List (Point R)) (s : Segment R) (e : RawEdge)
      : Type 0 where
    pub i : ℕ
    pub j : ℕ
    pub a : Point R
    pub b : Point R
    pub from : get_elem? (ids_of ns) i ≡ some e.from
    pub to : get_elem? (ids_of ns) j ≡ some e.to
    pub start : get_elem? circles i ≡ some a
    pub end : get_elem? circles j ≡ some b
    pub placed : s ≡ record { x1 = a.x; y1 = a.y; x2 = b.x; y2 = b.y }

  abbrev pub AllJoin : List RawNode → List (Point R) → List (Segment R) → List RawEdge → Type 0
  AllJoin ns circles [] [] = Unit
  AllJoin ns circles [] (e ∷ es) = ⊥
  AllJoin ns circles (s ∷ ss) [] = ⊥
  AllJoin ns circles (s ∷ ss) (e ∷ es) = Joins ns circles s e × AllJoin ns circles ss es

length-ids_of : (ns : List RawNode) → length (ids_of ns) ≡ length ns
length-ids_of [] = refl
length-ids_of (n ∷ ns) = ap suc (length-ids_of ns)

ends_of-parts :
    (find_node : List String → String → Option ℕ) (ns : List RawNode) (e : RawEdge) (i j : ℕ)
    → ends_of find_node ns e ≡ some (i, j)
    → (find_node (ids_of ns) e.from ≡ some i) × (find_node (ids_of ns) e.to ≡ some j)
unfolding ends_of
ends_of-parts find_node ns e i j h = elim (Option-cases (find_node (ids_of ns) e.from)) [
  | inl n ↦ absurd (cc (rw (n, ends_of) at h))
  | inr (i', y) ↦ elim (Option-cases (find_node (ids_of ns) e.to)) [
    | inl n ↦ absurd (cc (rw (y, n, ends_of) at h))
    | inr (j', z) ↦ let same = rw (y, z, ends_of) at h in (cc (y, same), cc (z, same))
  ]
]

ends_of-AreListed :
    (find_node : List String → String → Option ℕ) (ns : List RawNode) (e : RawEdge)
    → IsFinder find_node
    → elem e.from (ids_of ns) ≡ true
    → elem e.to (ids_of ns) ≡ true
    → (p : ℕ × ℕ) × (ends_of find_node ns e ≡ some p)
unfolding ends_of
ends_of-AreListed find_node ns e v f t = elim (Option-cases (find_node (ids_of ns) e.from)) [
  | inl n ↦ absurd (cc (v.complete (ids_of ns) e.from n))
  | inr (i, y) ↦ elim (Option-cases (find_node (ids_of ns) e.to)) [
    | inl n ↦ absurd (cc (v.complete (ids_of ns) e.to n))
    | inr (j, z) ↦ ((i, j), rw (y, z, ends_of) refl)
  ]
]

module _ {R : Type 0} where
  get_elem?-point_of :
      (bodies : List (Body R)) (i : ℕ) (a : Body R)
      → get_elem? bodies i ≡ some a
      → get_elem? (map point_of bodies) i ≡ some (point_of a)
  get_elem?-point_of [] i a e = cc
  get_elem?-point_of (b ∷ bs) zero a e = cc
  get_elem?-point_of (b ∷ bs) (suc i) a e = get_elem?-point_of bs i a e

  segment_of-Joins :
      (find_node : List String → String → Option ℕ) (ns : List RawNode) (bodies : List (Body R))
      (e : RawEdge) (i j : ℕ)
      → IsFinder find_node
      → length bodies ≡ length ns
      → ends_of find_node ns e ≡ some (i, j)
      → (s : Segment R) × (segment_of bodies (i, j) ≡ s ∷ []) × Joins ns (map point_of bodies) s e
  unfolding segment_of point_of
  segment_of-Joins find_node ns bodies e i j v count h =
      let (from, to) = ends_of-parts find_node ns e i j h in
      let first = v.found (ids_of ns) e.from i from in
      let second = v.found (ids_of ns) e.to j to in
      let n = length-ids_of ns in
      let (a, at_a) =
        get_elem?-some bodies i (omega (arith, n, count, some-length (ids_of ns) i e.from first)) in
      let (b, at_b) =
        get_elem?-some bodies j (omega (arith, n, count, some-length (ids_of ns) j e.to second)) in
      (
        record { x1 = a.x; y1 = a.y; x2 = b.x; y2 = b.y },
        rw (at_a, at_b, segment_of) refl,
        record {
          i = i;
          j = j;
          a = point_of a;
          b = point_of b;
          from = first;
          to = second;
          start = get_elem?-point_of bodies i a at_a;
          end = get_elem?-point_of bodies j b at_b;
          placed = refl;
        },
      )

  -- If every edge of a network joins two of its nodes, d3 does not throw; and after each tick, wherever
  -- it has moved the nodes, there is a line for each edge, in the same order, and it runs between the
  -- circles of two nodes with the ids that the edge names. d3 is taken to find a node of the id where
  -- there is one.
  pub place_marks-AllJoin :
      (find_node : List String → String → Option ℕ) (ns : List RawNode) (es : List RawEdge)
      → IsFinder find_node
      → AreListed ns es
      → (links : List (ℕ × ℕ)) × (link_ends find_node ns es ≡ some links)
        × ((bodies : List (Body R))
            → length bodies ≡ length ns
            → AllJoin ns (place_marks links bodies).circles (place_marks links bodies).lines es)
  unfolding link_ends place_marks segments_of
  place_marks-AllJoin find_node ns [] v listed = ([], refl, λ bodies count. tt)
  place_marks-AllJoin find_node ns (e ∷ es) v (from, to, listed) =
      let ((i, j), here) = ends_of-AreListed find_node ns e v from to in
      let (links, there, joined) = place_marks-AllJoin find_node ns es v listed in
      (
        (i, j) ∷ links,
        rw (here, there, link_ends) refl,
        λ bodies count.
            let (s, drawn, joins) = segment_of-Joins find_node ns bodies e i j v count here in
            subst (λ ss. AllJoin ns (map point_of bodies) (ss ++ segments_of bodies links) (e ∷ es))
              (sym drawn) (joins, joined bodies count),
      )
