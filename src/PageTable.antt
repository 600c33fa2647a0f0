-- ===== src/PageTable.antt =====
-- src/page_table.c: a set of Teletext pages and subpages.
mod State
mod Vector
mod Pages
mod Subpages
pub mod Words
pub mod Added
pub mod Removed
pub mod Contains
pub mod Lacks
pub mod Found
mod Tests
unfoldable pub use State.*
unfoldable pub use Vector.*
unfoldable pub use Pages.*
unfoldable pub use Subpages.*
