-- ===== src/Text.antt =====
-- The parts of Rust's `str` and `char` that the program uses, over lists of code points.
-- A literal stands behind `text`, which stays shut until a proof has to read its characters.
mod Laws
mod Lines
mod Pieces
pub use Lines.*
pub use Pieces.*
pub use Laws.*
unfoldable pub use Defs.*
mod Defs
