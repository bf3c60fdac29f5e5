-- ===== src/Text.antt =====
-- The operations of `str`, `AsciiStr` and `char` that the server uses, over lists of code points.
-- A text that came through `from_ascii` has code points below 128, so it is also its bytes.
pub mod Pieces
pub mod Decimal
mod Ascii
unfoldable pub use Ascii.*
