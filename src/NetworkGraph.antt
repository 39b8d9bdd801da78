-- ===== src/NetworkGraph.antt =====
-- tabulum.org/observe-app/src/components/NetworkGraph.jsx: the colours of the nodes, what is handed to
-- the two renderers, the life of the renderer's instance, the tooltip and what is rendered. Angles are
-- kept in thousandths of a degree, the exact values of which the source's floats are approximations;
-- the scales of d3 are parameters, and its simulation and 3d-force-graph are not modelled.
mod Hash
mod Graph
mod Sort
mod Hues
mod Hex
mod Scales
mod Instances
mod Marks
mod Hover
mod View
pub mod Component
pub mod Whole
mod Drag
mod Layout
pub mod Hashing
pub mod Channels
pub mod Lifetimes
pub mod Choice
pub mod Coloring
mod Tests
mod LifeTests
pub mod Sorting
pub mod Neighbours
pub mod Radii
pub mod Tooltips
pub mod Grips
pub mod Dragging
pub mod Ends
pub mod Emptied
unfoldable pub use Hash.*
unfoldable pub use Graph.*
unfoldable pub use Sort.*
unfoldable pub use Hues.*
unfoldable pub use Hex.*
unfoldable pub use Scales.*
unfoldable pub use Instances.*
unfoldable pub use Marks.*
unfoldable pub use Hover.*
unfoldable pub use View.*
unfoldable pub use Drag.*
