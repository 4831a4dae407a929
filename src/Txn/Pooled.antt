-- ===== src/Txn/Pooled.antt =====
-- A transaction over the buffer pool: what its trees need of it.
use frostfire.Prelude.{
  ℕ, ◌+◌, ◌<◌, ◌≡◌, Bool, true, false, arith, List, if◌then◌else◌, Option, none, some, Result, ok,
  err, panic, txn_closed,
}
use frostfire.Bytes.{Bytes}
use frostfire.Storage.{Disk}
use frostfire.Storage.Pages.{DiskLaws}
use frostfire.BufferPool.Defs.{BufferPool}
use frostfire.BufferPool.Defs as Frames
use frostfire.BufferPool.Coherence.{AtRest}
use frostfire.BufferPool.Reading.{Hands, get-Hands, unpin-IsCoherent}
use frostfire.BTree.Runs.{Run, Got, ReadLaws}
use frostfire.BTree.Trees.{Contents, IsTree}
use frostfire.BTree.Lookup.{search_tree}
use frostfire.BTree.Finding.{search_tree-contents}
use frostfire.Txn.Pool.{buffer_pool, finished}
use frostfire.Txn.Defs.{Txn, Db, txn_get}
use frostfire.Txn.Store.{TxnState, store_get, store_unpin, txn_pages}

module _ {disk : Disk} (laws : DiskLaws disk) (page : ℕ → Bytes) (Live Settled : ℕ → Type 0)
    (flush_fuel : ℕ) (under_way : ℕ → Bool) where
  -- A transaction that is open, over a coherent pool.
  abbrev pub IsOpen : TxnState (buffer_pool disk flush_fuel under_way) → Type 0
  IsOpen (t, db) = (t.closed ≡ false) × AtRest laws page Live Settled db.pool

  abbrev pub frame_pins : TxnState (buffer_pool disk flush_fuel under_way) → ℕ → ℕ
  frame_pins (t, db) m = (db.pool.frames m).pin_count

  -- The transaction is still open, and every frame is pinned as before.
  abbrev pub Unmoved : (s t : TxnState (buffer_pool disk flush_fuel under_way)) → Type 0
  Unmoved s t = IsOpen t × ((m : ℕ) → frame_pins t m ≡ frame_pins s m)

  got :
      (t : Txn) (db : Db (buffer_pool disk flush_fuel under_way)) (i : ℕ)
      (o : Option (Result ℕ × BufferPool disk))
      → Live i
      → t.closed ≡ false
      → Hands laws page Live Settled db.pool i o
      → let (r, pool') = finished db.pool o in
        Got
          (txn_pages (buffer_pool disk flush_fuel under_way))
          page
          IsOpen
          frame_pins
          (t, db)
          i
          (r, (t, record db { pool = pool' }))
  got t db i none live open_ h = h
  got t db i (some (ok n, pool')) live open_ (c, here, bytes, pins) = ((open_, c), bytes live, pins)
  got t db i (some (err e, pool')) live open_ (c, pins) = ((open_, c), pins)
  got t db i (some (panic, pool')) live open_ h = h

  past_guard :
      (t : Txn) (db : Db (buffer_pool disk flush_fuel under_way)) (i : ℕ) (closed : Bool)
      (o : Option (Result ℕ × BufferPool disk))
      → closed ≡ false
      → let (r, pool') = finished db.pool o in
        Got
          (txn_pages (buffer_pool disk flush_fuel under_way))
          page
          IsOpen
          frame_pins
          (t, db)
          i
          (r, (t, record db { pool = pool' }))
        → let (r, pool') = finished db.pool o in
          let answer : Result ℕ × Db (buffer_pool disk flush_fuel under_way) =
            if closed then (err txn_closed, db) else (r, record db { pool = pool' }) in
          let (r', db') = answer in
          Got
            (txn_pages (buffer_pool disk flush_fuel under_way))
            page
            IsOpen
            frame_pins
            (t, db)
            i
            (r', (t, db'))
  past_guard t db i true o e h = absurd (ground (arith, e))
  past_guard t db i false o e h = h

  -- The pool keeps what trees ask of the pages of a transaction.
  pub pooled_laws : ReadLaws (txn_pages (buffer_pool disk flush_fuel under_way)) page Live
  unfolding store_get store_unpin txn_get
  pooled_laws = record {
    Good = IsOpen;
    pins = frame_pins;
    get_law = λ i (t, db) live good. past_guard t db i t.closed (Frames.get disk i db.pool) good.0 (
        got t db i (Frames.get disk i db.pool) live (good.0)
          (get-Hands laws page Live Settled db.pool i good.1 ((good.1).in_file i live)));
    unpin_law = λ n (t, db) good held.
        let (done, c, pins) = unpin-IsCoherent laws page Live Settled n db.pool good.1 held in
        (done, (good.0, c), pins);
  }

  -- In an open transaction over a coherent buffer pool, whose live pages are a tree of height `h`
  -- that holds `contents`, with overflow chains of at most `longest` pages, Search answers with
  -- `contents key` or passes on an error, whatever the pool evicts and writes back meanwhile. It
  -- neither panics nor loops, and it leaves the transaction open, the pool coherent, every live page
  -- as it was and every frame pinned as before.
  pub search_tree-pooled :
      (longest h fuel root : ℕ) (contents : Contents) (key : List ℕ)
      (s : TxnState (buffer_pool disk flush_fuel under_way))
      → IsTree page Live longest h root contents
      → h + longest < fuel
      → IsOpen s
      → Run
          (λ v t. (v ≡ contents key) × Unmoved s t)
          (λ t. Unmoved s t)
          (search_tree (txn_pages (buffer_pool disk flush_fuel under_way)) fuel root key s)
  unfolding pooled_laws
  search_tree-pooled longest h fuel root contents key s tree enough good =
      search_tree-contents pooled_laws longest h fuel root contents key s tree enough good
