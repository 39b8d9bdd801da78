-- ===== src/BackgroundCanvas.antt =====
-- tabulum.org/observe-app/src/components/BackgroundCanvas.jsx: the animated background, its nodes that
-- drift and send pulses to one another, and the loop of frames that moves and draws them. The numbers
-- are the parameter `R`, an instance of `Floats`, and `rand` is the sequence of the values that
-- Math.random returns.
mod Config
mod Nodes
mod Motion
mod Messages
mod Update
mod Painting
mod Loop
mod Places
pub mod Window
mod Aiming
pub mod Soundness
pub mod Frames
mod Tests
unfoldable pub use Config.*
unfoldable pub use Nodes.*
unfoldable pub use Motion.*
unfoldable pub use Messages.*
unfoldable pub use Update.*
unfoldable pub use Painting.*
unfoldable pub use Loop.*
