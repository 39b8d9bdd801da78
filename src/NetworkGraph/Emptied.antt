-- ===== src/NetworkGraph/Emptied.antt =====
-- The 2D view when the network has become empty.
use tabulum.Prelude.{List, [], ◌∷◌, some, false, ◌≡◌, refl, ap}
use tabulum.Prelude.Floats.{Floats}
use tabulum.NetworkGraph.Scales.{RawNode}
use tabulum.NetworkGraph.Instances.{flat}
use tabulum.NetworkGraph.Hover.{
  Hover, new_nodes, bare, listening, redrawn, heard, draw_circles, listen, gesture, gestures,
}
use tabulum.NetworkGraph.View.{Panel, has_nodes, view}

module _ {R : Type 0} ⦃f : Floats R⦄ where
  -- In the 2D mode, when data without nodes follows data with nodes, the page says that there is no
  -- data, and the circles of the earlier nodes stay in the svg with their listeners.
  pub emptied_keeps_circles :
      (h : Hover R) (k : RawNode) (ns : List RawNode) (p : Panel)
      → h.mode ≡ flat
      → has_nodes p.network ≡ false
      → p.loading ≡ false
      → ((gestures (new_nodes (k ∷ ns) ∷ new_nodes [] ∷ []) h).circles ≡ listening (bare (k ∷ ns)))
        × ((view p).empty_text ≡ some "No network data available")
  unfolding gestures gesture draw_circles listen view
  emptied_keeps_circles h k ns p m e l = (
    ap (λ d. heard d [] (redrawn d [] (heard d (k ∷ ns) (redrawn d (k ∷ ns) h.circles)))) m,
    rw (e, l) refl,
  )
