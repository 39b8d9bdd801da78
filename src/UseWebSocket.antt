-- ===== src/UseWebSocket.antt =====
-- The hook of tabulum.org/observe-app/src/hooks/useWebSocket.js: a live feed over a WebSocket with
-- reconnection, and HTTP polling once a socket has failed. The refs and the React state are the
-- fields of `Hook`; what the browser keeps for the hook (its sockets, timeouts, intervals and the
-- polls in flight) stands beside them, and an `Event` is one call that the browser or React makes.
-- A query is kept as the pairs that URLSearchParams holds.
pub mod Urls
pub mod Sockets
mod State
mod Handlers
pub mod Shape
pub mod Links
pub mod Reconnect
pub mod Feed
pub mod Paused
pub mod Fallback
pub mod Stranded
pub mod Polling
pub mod Late
mod Tests
unfoldable pub use State.*
unfoldable pub use Handlers.*
