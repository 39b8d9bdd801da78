-- ===== src/Site.antt =====
-- tabulum.org/observe-app/src/App.jsx with the tools that it mounts: a tool's component is mounted
-- when its page is opened and unmounted when it is left, and what it has asked of the browser can
-- still come back to it after that.
mod State
pub mod Placing
pub mod Keeping
pub mod Tools
pub mod Polling
pub mod Streams
mod Tests
unfoldable pub use State.*
