-- ===== src/Cursor.antt =====
-- cursor.go: a cursor is the stack of nodes from the root to a leaf, with an index in each.
pub mod Defs
pub mod Pins
mod Tests
unfoldable pub use Defs.*
