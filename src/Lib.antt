-- ===== src/Lib.antt =====
-- frostfire: an embedded key-value store with copy-on-write B-trees, one writer and snapshot readers.
--
-- The parts, and the files that model them:
--   * Storage (storage.go): the database file as pages of 4096 bytes. The file itself is the record
--     `Disk`, a parameter: reads, writes, truncation and sync, each of which may fail. `allocate`
--     lets the file grow before a page past its end is used. Storage/Pages says what a file is expected
--     to keep of what is written to it (`DiskLaws`, on which no page but the one written changes).
--     Storage/Vectored writes several pages at once, in writes that may stop short (`VectorLaws` is what
--     the system promises of them). Storage/Batches has runs none of whose writes stops inside a page,
--     Storage/Torn one whose write does.
--   * BufferPool (bufferpool.go): frames with pin counts, usage counts and dirty flags, the page
--     table, and the clock that picks a victim. The pool keeps the storage manager in its state. One
--     goroutine runs at a time, so the shards of the page table are one table and no load waits for
--     another one. BufferPool/Flush writes the dirty frames back in runs of consecutive pages; the
--     runs are written in the order of their pages, and an argument says which of the later ones are
--     written still after one has failed. Sorting is by insertion. BufferPool/Whole says that no write
--     of a flush stops inside a page.
--     BufferPool/Coherence says when a pool stands for given pages: `Live` are the pages whose bytes
--     count, `Settled` those of them whose frames are clean; a new pool (Fresh) stands for its file.
--     Swap, Victims, Reading, Writing and Saving have what the operations keep of that, and Sorting,
--     Runs, Sweeps, Flushing and Durable what FlushPages does.
--   * Meta (meta.go): the header of the database on pages 0 and 1, with its checksum, a parameter,
--     and the choice between the two pages when the database is opened. commitMeta and writeMeta are
--     in Txn/Commit, initMetas and loadMeta on the pool in Database/Defs.
--   * FreelistPage (freelist_page.go) and Freelist (freelist.go): the page format of the list of free
--     pages, the list in memory with the transaction that freed each page, and the chain of pages
--     that stores it.
--   * Txn (txn.go, and the readers of db.go): transactions, on the interface Txn/Pager, which
--     Txn/Pool fills with the buffer pool. The database is the current header, the freelist, the
--     table of readers, the writer's mutex and the pool. Txn/Run has the runs of code on it,
--     Txn/Persist persistFreelist and the walks along its chain, Txn/Commit has Commit. Txn/Pooled,
--     Txn/Durable and Txn/Finish put trees and commits on the pool of BufferPool.
--   * Database (db.go): Open and Close, on the file that was opened and its size.
--   * Node (bnode.go, and the searches of btree.go): B-tree pages in slotted format, as bytes.
--     Bytes of Go's encoding/binary are Bytes.antt, bytes.Compare is Node/Key.antt.
--   * BTree (btree.go, update.go, delete.go, overflow.go): the tree. BTree/Pages is what it asks of
--     its transaction: a page by its id, a new page, the freeing of one, and for a page that was
--     handed out, its bytes and Unpin. Txn/Store fills it with a write transaction. BTree/Action is a
--     run of tree code: a state, a result, errors that leave the state, and cleanup after them.
--     Lookup has Search, leafValue and FreeAll; Overflow the chains of large values; Split and Update
--     the copying of a path and the splits; Siblings and Delete the borrowing and merging. Trees says
--     which function from keys to values a tree of pages is.
--   * Cursor (cursor.go): the stack of frames from the root to a leaf, and its movements.
--   * BulkLoad (bulkload.go): the loader's spine of open pages. The page size times the fill factor,
--     computed on floats, is an argument.
--   * Bucket (bucket.go): named trees, the catalog that is itself a tree, the cache of buckets in a
--     transaction, which is a list in the order in which the map is iterated, and its commit. A write
--     through a bucket gives the changed bucket, which the code changes in place.
--   * Prelude: the natural numbers, Boolean tests, lists, the results of fallible code and counting.
--
-- How the code corresponds: a function keeps its name in snake_case (`popReusable` is
-- `pop_reusable`); a method takes its receiver's state as last argument and returns the new one. A
-- pointer to a page is the index of its frame. `uint16` and `uint64` sums that can wrap are taken
-- modulo 2^16 and 2^64. An error is `err`, a panic or a failed assertion `panic`, of the type
-- `Result`. A byte slice of a page is a function from offsets, and every read tests the bounds.
--
-- Fuel: the loop of growSize has one round more than the bytes required, since every round adds
-- some; evictFrame has as many rounds as all usage counts and tries allow; a search of a page has
-- one round more than the page has cells; reading a chain has one round more than the chain has
-- pages; writing an overflow chain one more than the value has bytes; a batched write none of
-- whose steps stops inside a page, one more than it has pages; persistFreelist allocates in as many
-- rounds as pages are needed at first, and one more. The fuel of a tree operation bounds the height of
-- the tree and the lengths of its overflow chains. Where fuel runs out the model returns `none`, and the theorems on
-- runs of the model show where it does not.
--
-- Not modelled: interleavings of goroutines, and with them the shards' locks and the map of pages
-- that are being loaded, and flushes in which a later run fails before an earlier one begins; the
-- spare capacity that Go's slices of pages have on Linux, within which a slice past the page does not
-- panic; the opening of the file, the sync of its directory, and the system calls of
-- linux.go and darwin.go, which have no logic of their own.
pub mod Prelude
pub mod Bytes
pub mod Storage
pub mod BufferPool
pub mod Freelist
pub mod Txn
pub mod Node
pub mod BTree
pub mod Cursor
pub mod Database
pub mod BulkLoad
pub mod Bucket
pub mod Meta
pub mod FreelistPage
