-- ===== src/App.antt =====
-- tabulum.org/observe-app/src/App.jsx: the page for the path of the address, and the history that the
-- page and the browser's buttons move through.
mod Routes
mod State
pub mod Paths
pub mod Pages
mod Tests
unfoldable pub use Routes.*
unfoldable pub use State.*
