-- ===== src/LiveEventStream.antt =====
-- tabulum.org/observe-app/src/components/LiveEventStream.jsx: the feed of useWebSocket.js with its
-- filters, the pause button and the rows of the feed.
mod Selection
mod State
mod View
pub mod Toggling
pub mod Requests
pub mod Rows
mod Tests
unfoldable pub use Selection.*
unfoldable pub use State.*
unfoldable pub use View.*
