-- ===== src/Txn.antt =====
-- txn.go and the reader table of db.go: transactions, and the pages that they allocate and free.
-- The buffer pool is the interface Pager, which BufferPool fills in Txn/Pool.antt. The mutex of the
-- writer is a flag.
pub mod Pager
pub mod Defs
pub mod Pool
pub mod Pooled
pub mod Durable
pub mod Finish
pub mod Store
pub mod Run
pub mod Persist
pub mod Commit
pub mod Readers
pub mod Ownership
mod Tests
mod PoolTests
unfoldable pub use Defs.*
