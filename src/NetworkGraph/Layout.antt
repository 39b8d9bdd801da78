-- ===== src/NetworkGraph/Layout.antt =====
-- Where render2D and render3D of NetworkGraph.jsx put their marks: the forces of the simulation, the
-- places after one of its ticks, the zoom, and the container of the 3D view. d3 decides which node an
-- end of an edge names, and throws if none is: `find_node` is none then.
use tabulum.Prelude.{◌++◌, ℕ, String, List, [], ◌∷◌, Option, none, some, map, get_elem?}
use tabulum.Prelude.Floats.{Floats, ◌⊕◌, ◌⊘◌, whole, dec}
use tabulum.NetworkGraph.Scales.{RawNode, RawEdge, shown}
use tabulum.NetworkGraph.Marks.{D3, node_radius}
use tabulum.NetworkGraph.Drag.{Body}

pub record Forces (R : Type 0) : Type 0 where
  pub link_distance : R
  -- how strongly the nodes repel one another
  pub repulsion : R
  pub center_x : R
  pub center_y : R
  pub collide_radii : List R

pub record Point (R : Type 0) : Type 0 where
  pub x : R
  pub y : R

pub record Segment (R : Type 0) : Type 0 where
  pub x1 : R
  pub y1 : R
  pub x2 : R
  pub y2 : R

pub record Places (R : Type 0) : Type 0 where
  pub lines : List (Segment R)
  pub circles : List (Point R)
  pub labels : List (Point R)

-- `forceLink(edges).id(d => d.id)`: the two ends of an edge, by the index of their nodes.
unfoldable pub ends_of : (List String → String → Option ℕ) → List RawNode → RawEdge → Option (ℕ × ℕ)
ends_of find_node ns e =
    let ids = map (λ (n : RawNode). n.address) ns in
    elim (find_node ids e.from) [
      | none ↦ none
      | some i ↦ elim (find_node ids e.to) [ none ↦ none | some j ↦ some (i, j) ]
    ]

unfoldable pub link_ends :
    (List String → String → Option ℕ) → List RawNode → List RawEdge → Option (List (ℕ × ℕ))
unfolding ends_of
link_ends find_node ns [] = some []
link_ends find_node ns (e ∷ es) =
    let rest = link_ends find_node ns es in
    elim (ends_of find_node ns e) [
      | none ↦ none
      | some p ↦ elim rest [ none ↦ none | some ps ↦ some (p ∷ ps) ]
    ]

module _ {R : Type 0} where
  unfoldable pub point_of : Body R → Point R
  point_of b = record { x = b.x; y = b.y }

  -- The line of an edge; the nodes of its ends are there.
  unfoldable pub segment_of : List (Body R) → ℕ × ℕ → List (Segment R)
  segment_of bodies (i, j) = elim (get_elem? bodies i) [
    | none ↦ []
    | some a ↦ elim (get_elem? bodies j) [
      | none ↦ []
      | some b ↦ record { x1 = a.x; y1 = a.y; x2 = b.x; y2 = b.y } ∷ []
    ]
  ]

  unfoldable pub segments_of : List (Body R) → List (ℕ × ℕ) → List (Segment R)
  unfolding segment_of
  segments_of bodies [] = []
  segments_of bodies (p ∷ ps) = segment_of bodies p ++ segments_of bodies ps

  -- `sim.on('tick', …)`
  unfoldable pub place_marks : List (ℕ × ℕ) → List (Body R) → Places R
  unfolding point_of segments_of
  place_marks links bodies = record {
    lines = segments_of bodies links;
    circles = map point_of bodies;
    labels = map point_of bodies;
  }

-- The size of the container is the first two numbers.
module _ {R : Type 0} ⦃f : Floats R⦄ (d3 : D3 R) (ns : List RawNode) (es : List RawEdge) where
  unfoldable pub forces : R → R → Forces R
  unfolding node_radius shown
  forces width height = record {
    link_distance = whole 120;
    repulsion = whole 300;
    center_x = width ⊘ whole 2;
    center_y = height ⊘ whole 2;
    collide_radii = map (λ n. node_radius d3 ns es (shown n).activity ⊕ whole 10) ns;
  }

-- The transform of the svg's group; `T` is the type of d3's transforms.
pub record Zoom (T R : Type 0) : Type 0 where
  pub least : R
  pub most : R
  pub transform : Option T

pub data ZoomEvent (T : Type 0) : Type 0 where
  -- the user zooms or drags the background, and the timeout of 100 ms fires
  zoom : T → ZoomEvent T
  settled : ZoomEvent T

module _ {T R : Type 0} ⦃f : Floats R⦄ where
  unfoldable pub first_zoom : Zoom T R
  first_zoom = record { least = dec 3 10; most = whole 4; transform = none }

  unfoldable pub on_zoom : T → ZoomEvent T → Zoom T R → Zoom T R
  on_zoom identity (zoom t) z = record z { transform = some t }
  on_zoom identity settled z = record z { transform = some identity }

-- `while (container.firstChild) container.removeChild(container.firstChild)`
unfoldable pub clear {ℓ} : {C : Type ℓ} → List C → List C
clear [] = []
clear (c ∷ cs) = clear cs

-- What render3D sets once for the whole graph.
pub record DeepSetup (R : Type 0) : Type 0 where
  pub background : String
  pub width : R
  pub height : R
  pub node_opacity : R
  pub link_opacity : R
  pub arrow_length : R
  pub arrow_position : R
  -- the colour and the opacity that the renderer clears its canvas with
  pub clear_color : ℕ × R

unfoldable pub deep_setup : {R : Type 0} → ⦃f : Floats R⦄ → R → R → DeepSetup R
deep_setup width height = record {
  background = "#00000000";
  width = width;
  height = height;
  node_opacity = dec 85 100;
  link_opacity = dec 4 10;
  arrow_length = whole 3;
  arrow_position = whole 1;
  clear_color = (0, whole 0);
}

-- The children of the container: the canvas that 3d-force-graph puts into it after it was cleared, and
-- none once the instance has been destroyed.
unfoldable pub start_deep {ℓ} : {C : Type ℓ} → C → List C → List C
unfolding clear
start_deep canvas children = canvas ∷ clear children

unfoldable pub destroy_deep {ℓ} : {C : Type ℓ} → List C → List C
unfolding clear
destroy_deep children = clear children
