-- ===== src/UsePolling.antt =====
-- The hook of tabulum.org/observe-app/src/hooks/usePolling.js: a resource fetched at once and then
-- on an interval. `Hook` holds the React state, `mountedRef`, and what the browser keeps for the
-- hook: the live intervals and the fetches in flight. The type of the parsed JSON is a parameter.
mod State
mod Handlers
pub mod Ticking
pub mod Loading
pub mod Stale
pub mod Attached
pub mod Owned
mod Tests
unfoldable pub use State.*
unfoldable pub use Handlers.*
