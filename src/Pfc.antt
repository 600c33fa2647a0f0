-- ===== src/Pfc.antt =====
-- src/pfc_demux.c: the demultiplexer for Page Function Clear data (EN 300 708 section 4).
mod State
mod Decode
mod Feed
pub mod Invariant
pub mod Rounds
pub mod Safety
pub mod Headers
pub mod Select
pub mod Collect
pub mod Deliver
pub mod Overread
mod Tests
unfoldable pub use State.*
unfoldable pub use Decode.*
unfoldable pub use Feed.*
