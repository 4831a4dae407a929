-- ===== src/Node.antt =====
-- bnode.go and the searches of btree.go: B-tree pages in slotted format. A page is its bytes, and
-- `uint16` arithmetic wraps. A read outside the page, as a failed assertion, is a panic.
pub mod Defs
pub mod Search
pub mod Key
pub mod Append
pub mod Copy
pub mod Range
pub mod Cells
pub mod Leaf
pub mod Internal
mod Tests
unfoldable pub use Defs.*
unfoldable pub use Copy.*
