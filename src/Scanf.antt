-- ===== src/Scanf.antt =====
-- Words and texts in buffers.
mod Defs
mod Laws
unfoldable pub use Defs.*
pub use Laws.*
