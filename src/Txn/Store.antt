-- ===== src/Txn/Store.antt =====
-- A write transaction as the store of a B-tree's pages.
use frostfire.Prelude.{ℕ, Result, ok, err, panic}
use frostfire.Bytes.{Bytes}
use frostfire.BTree.Pages.{Pages}
use frostfire.Txn.Pager.{Pager}
use frostfire.Txn.Defs.{Txn, Db, txn_get, txn_allocate_page, free_page}

module _ (pager : Pager) where
  abbrev pub TxnState : Type 0
  TxnState = Txn × Db pager

  -- The frame of the page that AllocatePage granted.
  abbrev frame_of : Result (ℕ × ℕ) → Result ℕ
  frame_of (ok (id, frame)) = ok frame
  frame_of (err e) = err e
  frame_of panic = panic

  unfoldable pub store_get : ℕ → TxnState → Result ℕ × TxnState
  unfolding txn_get
  store_get id (t, db) = let (r, db') = txn_get pager id t db in (r, (t, db'))

  unfoldable pub store_allocate : TxnState → Result ℕ × TxnState
  unfolding txn_allocate_page
  store_allocate (t, db) =
      let (r, t', db') = txn_allocate_page pager t db in (frame_of r, (t', db'))

  unfoldable pub store_free : ℕ → TxnState → Result (Unit {0}) × TxnState
  unfolding free_page
  store_free id (t, db) = let (r, t') = free_page pager id t in (r, (t', db))

  unfoldable pub store_unpin : ℕ → TxnState → Result (Unit {0}) × TxnState
  store_unpin n (t, db) =
      let (r, pool') = pager.unpin n db.pool in (r, (t, record db { pool = pool' }))

  unfoldable pub store_write : ℕ → Bytes → TxnState → TxnState
  store_write n d (t, db) = (t, record db { pool = pager.set_bytes n d db.pool })

  abbrev pub txn_pages : Pages
  txn_pages = record {
    State = TxnState;
    get = store_get;
    allocate = store_allocate;
    free = store_free;
    unpin = store_unpin;
    id_of = λ n (t, db). pager.page_id n db.pool;
    bytes_of = λ n (t, db). pager.bytes n db.pool;
    set_bytes = store_write;
  }
