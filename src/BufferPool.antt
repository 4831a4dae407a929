-- ===== src/BufferPool.antt =====
-- bufferpool.go: a fixed set of frames that hold pages of the file, with pins and a clock that
-- chooses victims. Each operation runs here from its first lock to its last, one after the other.
-- The shards of the page table are one function from page ids to frames.
pub mod Defs
pub mod Clock
pub mod Coherence
pub mod Swap
pub mod Victims
pub mod Reading
pub mod Writing
pub mod Saving
pub mod Fresh
pub mod Sorting
pub mod Runs
pub mod Whole
pub mod Swept
pub mod Sweeps
pub mod Flushing
pub mod Durable
pub mod Flush
mod Tests
pub mod PoolTests
unfoldable pub use Defs.*
