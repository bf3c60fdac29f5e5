-- ===== src/Io.antt =====
-- The parts of `std::io` that the server uses: error kinds, readers and writers as interfaces, and
-- programs over a writer.
mod Kinds
mod Programs
pub mod Readers
pub mod Slice
pub use Kinds.*
unfoldable pub use Programs.*
