-- ===== src/OgImage/Window.antt =====
-- Where the nodes of gen-og-image.js are after a tick.
use tabulum.Prelude.{
  none-length, ℕ, zero, suc, ◌+◌, ◌≤◌, List, [], ◌∷◌, true, false, All, length, get_elem?, set,
  length-set, ◌≡◌, arith, Option-cases, inl, inr,
}
use tabulum.Prelude.Floats.{Floats, IsOrdered, less, negative, ◌⊕◌}
use tabulum.OgImage.Config.{width, height}
use tabulum.OgImage.Nodes.{Node}
use tabulum.OgImage.Physics.{margin, wrap, move, move_from, simulate}

module _ {R : Type 0} ⦃f : Floats R⦄ where
  -- Not beyond the margin on either side, which a number that is not one is not either.
  abbrev pub IsWithin : R → R → Type 0
  IsWithin side x = (less x (negative margin) ≡ false) × (less (side ⊕ margin) x ≡ false)

  abbrev pub IsInside : Node R → Type 0
  IsInside n = IsWithin width n.x × IsWithin height n.y

  -- What is asked of the window: its far edge is not before its near edge.
  abbrev pub IsSide : R → Type 0
  IsSide side = less (negative margin) (side ⊕ margin) ≡ true

module _ {R : Type 0} ⦃f : Floats R⦄ (order : IsOrdered R) where
  wrap-IsWithin : (side x : R) → IsSide side → IsWithin side (wrap side x)
  unfolding wrap
  wrap-IsWithin side x h = ground (
    arith,
    order.lt_irrefl (negative margin),
    order.lt_irrefl (side ⊕ margin),
    order.lt_asymm (negative margin) (side ⊕ margin),
  )

  move-IsInside :
      (i : ℕ) (nodes : List (Node R)) (n : Node R) (seed : ℕ)
      → IsSide {R = R} width
      → IsSide {R = R} height
      → IsInside (move i nodes n seed).0
  unfolding move
  move-IsInside i nodes n seed w h = (wrap-IsWithin _ _ w, wrap-IsWithin _ _ h)

  -- The nodes before index `i` are inside.
  abbrev InsideBelow : ℕ → List (Node R) → Type 0
  InsideBelow zero ns = Unit
  InsideBelow (suc i) [] = Unit
  InsideBelow (suc i) (n ∷ ns) = IsInside n × InsideBelow i ns

  InsideBelow-set :
      (i : ℕ) (ns : List (Node R)) (n : Node R)
      → IsInside n
      → InsideBelow i ns
      → InsideBelow (suc i) (set ns i n)
  InsideBelow-set zero [] n h b = tt
  InsideBelow-set zero (m ∷ ns) n h b = (h, tt)
  InsideBelow-set (suc i) [] n h b = tt
  InsideBelow-set (suc i) (m ∷ ns) n h b = (b.0, InsideBelow-set i ns n h b.1)

  InsideBelow-All :
      (i : ℕ) (ns : List (Node R)) → length ns ≤ i → InsideBelow i ns → All IsInside ns
  InsideBelow-All i [] l b = tt
  InsideBelow-All zero (n ∷ ns) l b = absurd (omega arith)
  InsideBelow-All (suc i) (n ∷ ns) l b = (b.0, InsideBelow-All i ns (omega arith) b.1)

  move_from-Inside :
      (left i : ℕ) (ns : List (Node R)) (seed : ℕ)
      → IsSide {R = R} width
      → IsSide {R = R} height
      → length ns ≤ left + i
      → InsideBelow i ns
      → All IsInside (move_from left i ns seed).0
  unfolding move_from
  move_from-Inside zero i ns seed w h l b = InsideBelow-All i ns (omega arith) b
  move_from-Inside (suc left) i ns seed w h l b = elim (Option-cases (get_elem? ns i)) [
    | inl e ↦ rw (e, move_from) (InsideBelow-All i ns (none-length ns i e) b)
    | inr (n, e) ↦
        rw (e, move_from)
          (move_from-Inside left (suc i) (set ns i (move i ns n seed).0) (move i ns n seed).1 w h
            (omega (arith, length-set {0} ns i (move i ns n seed).0))
            (InsideBelow-set i ns (move i ns n seed).0 (move-IsInside i ns n seed w h) b))
  ]

  -- After any number of ticks, one at least, every node is within the margins of the picture, wherever
  -- the nodes began.
  pub simulate-Inside :
      (ticks : ℕ) (ns : List (Node R)) (seed : ℕ)
      → IsSide {R = R} width
      → IsSide {R = R} height
      → All IsInside (simulate (suc ticks) ns seed).0
  unfolding simulate
  simulate-Inside zero ns seed w h = move_from-Inside (length ns) 0 ns seed w h (omega arith) tt
  simulate-Inside (suc ticks) ns seed w h =
      simulate-Inside ticks (move_from (length ns) 0 ns seed).0 (move_from (length ns) 0 ns seed).1
        w h
