-- ===== src/BulkLoad.antt =====
-- bulkload.go: a tree built from keys in ascending order. The loader holds the rightmost node of each
-- level, the leaf first.
pub mod Defs
unfoldable pub use Defs.*
