-- ===== src/Bucket.antt =====
-- bucket.go: named trees, their catalog, and what a transaction has changed of them.
pub mod Defs
pub mod Cache
pub mod Dropped
pub mod Empty
pub mod Catalog
unfoldable pub use Defs.*
mod Tests
