-- ===== src/NetworkGraph/Hover.antt =====
-- The tooltip of the 2D view: the circles in the svg, whether they have the listeners of the tooltip,
-- and the pointer over them.
use tabulum.Prelude.{
  Option, none, some, if◌then◌else◌, ℕ, String, List, [], ◌∷◌, Bool, true, false, map, get_elem?,
  ◌<>◌, show,
}
use tabulum.Prelude.Floats.{Floats, ◌⊕◌, ◌⊖◌, whole}
use tabulum.NetworkGraph.Scales.{RawNode, or_zero}
use tabulum.NetworkGraph.Instances.{Mode, flat, deep, same_mode}

pub record Tooltip (R : Type 0) : Type 0 where
  pub visible : Bool
  pub address : String
  pub stat : String
  pub left : R
  pub top : R

pub record Hover (R : Type 0) : Type 0 where
  pub mode : Mode
  -- those of the data; without data there are none
  pub nodes : List RawNode
  -- each circle's node, and whether it has the listeners
  pub circles : List (RawNode × Bool)
  pub tip : Tooltip R

pub data Gesture (R : Type 0) : Type 0 where
  -- new data; a click on one of the mode buttons; the window changes its size
  new_nodes : List RawNode → Gesture R
  new_mode : Mode → Gesture R
  new_size : Gesture R
  -- the pointer enters the circle with that index, moves over it, with its place and that of the svg,
  -- and leaves it
  enter : ℕ → Gesture R
  move : ℕ → R → R → R → R → Gesture R
  leave : ℕ → Gesture R

abbrev pub bare : List RawNode → List (RawNode × Bool)
bare ns = map (λ n. (n, false)) ns

abbrev pub listening : List (RawNode × Bool) → List (RawNode × Bool)
listening cs = map (λ c. (c.0, true)) cs

abbrev pub stat_text : RawNode → String
stat_text n =
    "Sent: "
    <> show (or_zero n.messages_sent)
    <> "  |  Received: "
    <> show (or_zero n.messages_received)

-- The circles that `renderGraph` leaves, which clears the svg; without nodes it returns at once.
abbrev pub redrawn : Mode → List RawNode → List (RawNode × Bool) → List (RawNode × Bool)
redrawn flat [] cs = cs
redrawn flat (n ∷ ns) cs = bare (n ∷ ns)
redrawn deep ns cs = cs

-- The circles after the effect of the tooltip.
abbrev pub heard : Mode → List RawNode → List (RawNode × Bool) → List (RawNode × Bool)
heard flat [] cs = cs
heard flat (n ∷ ns) cs = listening cs
heard deep ns cs = cs

module _ {R : Type 0} where
  unfoldable pub draw_circles : Hover R → Hover R
  draw_circles h = record h { circles = redrawn h.mode h.nodes h.circles }

  unfoldable pub listen : Hover R → Hover R
  listen h = record h { circles = heard h.mode h.nodes h.circles }

  -- What a listener changes, on a circle that has them.
  abbrev pub changed :
      (RawNode → Tooltip R → Tooltip R) → Option (RawNode × Bool) → Tooltip R → Tooltip R
  changed change none t = t
  changed change (some (n, false)) t = t
  changed change (some (n, true)) t = change n t

  unfoldable pub on_circle : ℕ → (RawNode → Tooltip R → Tooltip R) → Hover R → Hover R
  on_circle i change h = record h { tip = changed change (get_elem? h.circles i) h.tip }

  -- `mouseenter`
  unfoldable pub show_tip : RawNode → Tooltip R → Tooltip R
  show_tip n t = record t { visible = true; address = n.address; stat = stat_text n }

  -- `mousemove`
  unfoldable pub move_tip : ⦃f : Floats R⦄ → R → R → R → R → RawNode → Tooltip R → Tooltip R
  move_tip x y left top n t = record t { left = x ⊖ left ⊕ whole 12; top = y ⊖ top ⊖ whole 10 }

  -- `mouseleave`
  unfoldable pub hide_tip : RawNode → Tooltip R → Tooltip R
  hide_tip n t = record t { visible = false }

  -- The effects run in their order: `renderGraph` has changed with the data and the mode, and the
  -- tooltip depends on both. The svg is there in the flat mode only.
  unfoldable pub gesture : ⦃f : Floats R⦄ → Gesture R → Hover R → Hover R
  unfolding draw_circles listen on_circle show_tip move_tip hide_tip
  gesture (new_nodes ns) h = listen (draw_circles (record h { nodes = ns }))
  gesture (new_mode m) h =
      if same_mode m h.mode then h else listen (draw_circles (record h { mode = m; circles = [] }))
  gesture new_size h = draw_circles h
  gesture (enter i) h = on_circle i show_tip h
  gesture (move i x y left top) h = on_circle i (move_tip x y left top) h
  gesture (leave i) h = on_circle i hide_tip h

  unfoldable pub gestures : ⦃f : Floats R⦄ → List (Gesture R) → Hover R → Hover R
  unfolding gesture
  gestures [] h = h
  gestures (g ∷ gs) h = gestures gs (gesture g h)
