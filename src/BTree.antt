-- ===== src/BTree.antt =====
-- The B-tree of btree.go, update.go, delete.go and overflow.go: operations on nodes, which are pages
-- that a transaction hands out. Pages is what the tree asks of its transaction; Txn/Store fills it.
pub mod Pages
pub mod Action
pub mod Nodes
pub mod Overflow
pub mod Lookup
pub mod Split
pub mod Cuts
pub mod Update
pub mod Siblings
pub mod Delete
pub mod Runs
pub mod Trees
pub mod Chains
pub mod Writing
pub mod WriteLoop
pub mod Equal
pub mod Values
pub mod Finding
pub mod Roundtrip
pub mod Visits
pub mod Idle
pub mod Memory
pub mod Forest
mod Tests
mod ChainTests
