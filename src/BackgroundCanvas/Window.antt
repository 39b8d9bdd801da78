-- ===== src/BackgroundCanvas/Window.antt =====
-- Where the nodes of BackgroundCanvas.jsx are after a frame.
use tabulum.Prelude.{
  none-length, ◌+◌, zero, refl, length-set, ◌∙◌, subst, inr, All, ◌≤◌, set, inl, suc, length,
  get_elem?, Option-cases, ◌≡◌, arith, ℕ,
}
use tabulum.Prelude.Floats.{Floats, IsOrdered, negative, ◌⊕◌}
use tabulum.BackgroundCanvas.Soundness.{update-IsSound}
use tabulum.BackgroundCanvas.Aiming.{IsUnit, IsSound}
use tabulum.BackgroundCanvas.Nodes.{Node, Scene, Outcome, done, thrown}
use tabulum.BackgroundCanvas.Motion.{margin, wrap, move}
use tabulum.BackgroundCanvas.Messages.{message}
use tabulum.BackgroundCanvas.Update.{maybe_spawn, move_from, update}
use tabulum.BackgroundCanvas.Places.{
  IsWithin, IsInside, IsSide, InsideBelow, IsSized, Holds, InsideBelow-set, message-IsStill,
  finish-Inside, maybe_spawn-IsSized,
}

module _ {R : Type 0} ⦃f : Floats R⦄ (order : IsOrdered R) where
  wrap-IsWithin : (side x : R) → IsSide side → IsWithin side (wrap side x)
  unfolding wrap
  wrap-IsWithin side x h = ground (
    arith,
    order.lt_irrefl (negative margin),
    order.lt_irrefl (side ⊕ margin),
    order.lt_asymm (negative margin) (side ⊕ margin),
  )

  wrap-IsWithin_at : (side side' x : R) → side' ≡ side → IsSide side → IsWithin side (wrap side' x)
  wrap-IsWithin_at side side' x e h = rw (e) (wrap-IsWithin side x h)

  move-IsInside :
      (w h : R) (rand : ℕ → R) (i : ℕ) (n : Node R) (s : Scene R)
      → IsSized w h s
      → IsSide w
      → IsSide h
      → IsInside w h (move rand i n s).0
  unfolding move
  move-IsInside w h rand i n s z p q =
      (wrap-IsWithin_at w s.width _ z.0 p, wrap-IsWithin_at h s.height _ z.1 q)

  move_from-Inside :
      (w h : R) (rand : ℕ → R) (left i : ℕ) (s : Scene R)
      → IsSide w
      → IsSide h
      → IsSized w h s
      → length s.nodes ≤ left + i
      → InsideBelow w h i s.nodes
      → (j : ℕ) × (length (move_from rand left i s).nodes ≤ j)
        × InsideBelow w h j (move_from rand left i s).nodes
  unfolding move_from move
  move_from-Inside w h rand zero i s p q z l b = (i, omega arith, b)
  move_from-Inside w h rand (suc left) i s p q z l b = elim (Option-cases (get_elem? s.nodes i)) [
    | inl e ↦ rw (e, move_from) (i, none-length s.nodes i e, b)
    | inr (n, e) ↦
        let n' = (move rand i n s).0 in
        let s' = record (move rand i n s).1 { nodes = set s.nodes i n' } in
        let still = message-IsStill rand i n' s' in
        rw (e, move_from)
          (move_from-Inside w h rand left (suc i) (message rand i n' s') p q
            (still.0 ∙ z.0, still.1 ∙ z.1)
            (omega (arith, l, still.2.0, length-set {0} s.nodes i n'))
            (still.2.1 w h (suc i)
              (InsideBelow-set w h i s.nodes n' (move-IsInside w h rand i n s z p q) b)))
  ]

  after_spawn :
      (w h : R) (rand : ℕ → R) (s : Scene R) (o : Outcome R)
      → IsSide w
      → IsSide h
      → maybe_spawn rand (record s { tick = suc s.tick }) ≡ o
      → Holds (IsSized w h) o
      → Holds (λ s'. All (IsInside w h) s'.nodes) (update rand s)
  unfolding update
  after_spawn w h rand s (thrown s') p q e z = rw (e, update) tt
  after_spawn w h rand s (done s') p q e z =
      let (j, l, b) = move_from-Inside w h rand (length s'.nodes) 0 s' p q z (omega arith) tt in
      rw (e, update) (finish-Inside w h j (move_from rand (length s'.nodes) 0 s') l b)

  -- The next frame ends normally, and after it every node is within the margins of the window, wherever
  -- the nodes were before, also when the window has just been made smaller: while every pulse is on its
  -- way from one node to another and there are at most 40 nodes.
  pub update-Inside :
      (rand : ℕ → R) (s : Scene R)
      → IsUnit rand
      → IsSound s
      → IsSide s.width
      → IsSide s.height
      → (s' : Scene R) × (update rand s ≡ done s') × All (IsInside s.width s.height) s'.nodes
  update-Inside rand s u v p q =
      let (s', e, w) = update-IsSound rand s u v in
      (
        s',
        e,
        subst (Holds (λ t. All (IsInside s.width s.height) t.nodes)) e (
            after_spawn s.width s.height rand s (maybe_spawn rand (record s { tick = suc s.tick }))
              p q refl (maybe_spawn-IsSized rand (record s { tick = suc s.tick }))),
      )
