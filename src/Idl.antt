-- ===== src/Idl.antt =====
-- src/idl_demux.c: the demultiplexer for Independent Data Lines (EN 300 708 section 6).
mod Crc
mod Data
mod Demux
pub mod Serial
pub mod Dummy
pub mod Kept
pub mod Flags
pub mod Invariant
pub mod Safety
mod Tests
unfoldable pub use Crc.*
unfoldable pub use Data.*
unfoldable pub use Demux.*
