-- ===== src/PrebuildDocs.antt =====
-- scripts/prebuild-docs.js: the ids of the headings of a rendered document, the table of contents that
-- links to them, the page that is made from the template, and the files that are written. Texts are
-- lists of code points.
mod Slugs
mod Ids
mod Docs
mod Replacing
mod Cutting
mod Pages
mod Disk
pub mod Shape
pub mod Targets
pub mod Replaced
pub mod Repeats
pub mod Writing
pub mod Dollars
mod Tests
pub mod Matches
pub mod Pieces
unfoldable pub use Slugs.*
unfoldable pub use Replacing.*
unfoldable pub use Docs.*
unfoldable pub use Ids.*
unfoldable pub use Cutting.*
unfoldable pub use Pages.*
unfoldable pub use Disk.*
