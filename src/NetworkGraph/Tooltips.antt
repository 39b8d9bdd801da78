-- ===== src/NetworkGraph/Tooltips.antt =====
-- When the tooltip of the 2D view works.
use tabulum.Prelude.{
  inr, ◌⊎◌, inl, ℕ, zero, suc, List, [], ◌∷◌, true, false, none, some, get_elem?, ◌≡◌, refl, ap,
  ◌∙◌,
}
use tabulum.Prelude.Floats.{Floats}
use tabulum.NetworkGraph.Scales.{RawNode}
use tabulum.NetworkGraph.Instances.{flat}
use tabulum.NetworkGraph.Hover.{
  changed, redrawn, heard, move_tip, Tooltip, Hover, Gesture, new_nodes, new_mode, new_size, enter,
  move, leave, bare, listening, draw_circles, listen, on_circle, show_tip, hide_tip, gesture,
  gestures,
}

-- Only the pointer moves.
abbrev pub IsPointer : {R : Type 0} → List (Gesture R) → Type 0
IsPointer [] = Unit
IsPointer (new_nodes ns ∷ gs) = ⊥
IsPointer (new_mode m ∷ gs) = ⊥
IsPointer (new_size ∷ gs) = ⊥
IsPointer (enter i ∷ gs) = IsPointer gs
IsPointer (move i x y left top ∷ gs) = IsPointer gs
IsPointer (leave i ∷ gs) = IsPointer gs

get_elem?-bare :
    (ns : List RawNode) (i : ℕ)
    → (get_elem? (bare ns) i ≡ none) ⊎ ((n : RawNode) × (get_elem? (bare ns) i ≡ some (n, false)))
get_elem?-bare [] i = inl refl
get_elem?-bare (n ∷ ns) zero = inr (n, refl)
get_elem?-bare (n ∷ ns) (suc i) = get_elem?-bare ns i

get_elem?-listening :
    (ns : List RawNode) (i : ℕ) (n : RawNode)
    → get_elem? ns i ≡ some n
    → get_elem? (listening (bare ns)) i ≡ some (n, true)
get_elem?-listening [] i n e = cc
get_elem?-listening (m ∷ ns) zero n e = cc
get_elem?-listening (m ∷ ns) (suc i) n e = get_elem?-listening ns i n e

module _ {R : Type 0} ⦃f : Floats R⦄ where
  changed-bare :
      (i : ℕ) (change : RawNode → Tooltip R → Tooltip R) (ns : List RawNode) (h : Hover R)
      → h.circles ≡ bare ns
      → changed change (get_elem? h.circles i) h.tip ≡ h.tip
  changed-bare i change ns h c = elim (get_elem?-bare ns i) [
    | inl e ↦
        ap (λ cs. changed change (get_elem? cs i) h.tip) c ∙ ap (λ o. changed change o h.tip) e
    | inr (n, e) ↦
        ap (λ cs. changed change (get_elem? cs i) h.tip) c ∙ ap (λ o. changed change o h.tip) e
  ]

  on_circle-bare :
      (i : ℕ) (change : RawNode → Tooltip R → Tooltip R) (ns : List RawNode) (h : Hover R)
      → h.circles ≡ bare ns
      → on_circle i change h ≡ h
  unfolding on_circle
  on_circle-bare i change ns h c = ap (λ t. record h { tip = t }) (changed-bare i change ns h c)

  gestures-bare :
      (gs : List (Gesture R)) (ns : List RawNode) (h : Hover R)
      → IsPointer gs
      → h.circles ≡ bare ns
      → gestures gs h ≡ h
  unfolding gestures gesture
  gestures-bare [] ns h p c = refl
  gestures-bare (new_nodes ms ∷ gs) ns h p c = absurd p
  gestures-bare (new_mode m ∷ gs) ns h p c = absurd p
  gestures-bare (new_size ∷ gs) ns h p c = absurd p
  gestures-bare (enter i ∷ gs) ns h p c =
      ap (gestures gs) (on_circle-bare i show_tip ns h c) ∙ gestures-bare gs ns h p c
  gestures-bare (move i x y left top ∷ gs) ns h p c =
      ap (gestures gs) (on_circle-bare i (move_tip x y left top) ns h c) ∙ gestures-bare gs ns h p c
  gestures-bare (leave i ∷ gs) ns h p c =
      ap (gestures gs) (on_circle-bare i hide_tip ns h c) ∙ gestures-bare gs ns h p c

  draw_circles-flat :
      (k : RawNode) (ns : List RawNode) (h : Hover R)
      → h.mode ≡ flat
      → h.nodes ≡ k ∷ ns
      → draw_circles h ≡ record h { circles = bare (k ∷ ns) }
  unfolding draw_circles
  draw_circles-flat k ns h m q =
      ap (λ cs. record h { circles = cs })
        (ap (λ d. redrawn d h.nodes h.circles) m ∙ ap (λ ns'. redrawn flat ns' h.circles) q)

  listen-flat :
      (k : RawNode) (ns : List RawNode) (h : Hover R)
      → h.mode ≡ flat
      → h.nodes ≡ k ∷ ns
      → listen h ≡ record h { circles = listening h.circles }
  unfolding listen
  listen-flat k ns h m q =
      ap (λ cs. record h { circles = cs })
        (ap (λ d. heard d h.nodes h.circles) m ∙ ap (λ ns'. heard flat ns' h.circles) q)

  -- In the 2D mode, after new data the circle of a node shows that node's tooltip when the pointer
  -- enters it; but once the window has changed its size, nothing that the pointer does over the
  -- circles shows, moves or hides the tooltip, as the circles are drawn anew without the listeners.
  pub resized_tooltip :
      (h : Hover R) (ns : List RawNode) (i : ℕ) (n : RawNode) (gs : List (Gesture R))
      → h.mode ≡ flat
      → get_elem? ns i ≡ some n
      → IsPointer gs
      → ((gestures (new_nodes ns ∷ enter i ∷ []) h).tip ≡ show_tip n h.tip)
        × ((gestures (new_nodes ns ∷ new_size ∷ gs) h).tip ≡ h.tip)
  unfolding gestures gesture on_circle
  resized_tooltip h [] i n gs m e p = cc
  resized_tooltip h (k ∷ ns) i n gs m e p =
      let b = record h { nodes = k ∷ ns; circles = bare (k ∷ ns) } in
      let l = record h { nodes = k ∷ ns; circles = listening (bare (k ∷ ns)) } in
      let fresh = record h { nodes = k ∷ ns } in
      let e1 = ap listen (draw_circles-flat k ns fresh m refl) ∙ listen-flat k ns b m refl in
      let e2 = draw_circles-flat k ns l m refl in
      (
        ap (λ (c : Hover R). (on_circle i show_tip c).tip) e1
            ∙ ap (λ o. changed show_tip o h.tip) (get_elem?-listening (k ∷ ns) i n e),
        ap (λ (c : Hover R). (gestures gs (gesture new_size c)).tip) e1
            ∙ ap (λ (c : Hover R). (gestures gs c).tip) e2
            ∙ ap (λ (c : Hover R). c.tip) (gestures-bare gs (k ∷ ns) b p refl),
      )
