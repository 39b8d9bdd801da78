-- ===== src/StateBrowser.antt =====
-- tabulum.org/observe-app/src/components/StateBrowser.jsx: the table of state keys that usePolling.js
-- keeps up to date, with a prefix to search for, and one row that can be opened to fetch its value.
mod Format
mod State
mod View
pub mod Sizes
pub mod Panels
pub mod Search
mod Tests
unfoldable pub use Format.*
unfoldable pub use State.*
unfoldable pub use View.*
