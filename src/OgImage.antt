-- ===== src/OgImage.antt =====
-- scripts/gen-og-image.js: the preview image of the site, a snapshot of the landing page's animation.
-- The numbers are the parameter `R`, an instance of `Floats`. A statement that reads a property of
-- undefined throws, and the script ends there: `none`.
mod Config
mod Random
mod Nodes
mod Physics
mod Edges
mod Lights
mod Painting
mod Script
pub mod Seeds
pub mod Drawn
pub mod Whole
pub mod Window
pub mod Pairs
pub mod Flights
mod Tests
unfoldable pub use Config.*
unfoldable pub use Random.*
unfoldable pub use Nodes.*
unfoldable pub use Physics.*
unfoldable pub use Edges.*
unfoldable pub use Lights.*
unfoldable pub use Script.*
unfoldable pub use Painting.*
