-- ===== src/Database.antt =====
-- db.go: a database is opened by putting the storage manager, the buffer pool, the header and the
-- freelist together.
pub mod Defs
unfoldable pub use Defs.*
