-- ===== src/Txn/Run.antt =====
-- Runs of code on the database, and on a transaction with its database.
use frostfire.Prelude.{ℕ, Option, none, some, Result, ok}
use frostfire.Bytes.{Bytes}
use frostfire.BTree.Action.{Action}
use frostfire.Txn.Pager.{Pager}
use frostfire.Txn.Defs.{Txn, Db}
use frostfire.Txn.Store.{TxnState}

module _ (pager : Pager) where
  -- A call of the buffer pool.
  abbrev pub pool_call : {A : Type 0} → (pager.State → Result A × pager.State) → Action (Db pager) A
  pool_call f db = let (r, pool') = f db.pool in some (r, record db { pool = pool' })

  abbrev pub page_bytes : ℕ → Action (Db pager) Bytes
  page_bytes n db = some (ok (pager.bytes n db.pool), db)

  abbrev pub set_page_bytes : ℕ → Bytes → Action (Db pager) (Unit {0})
  set_page_bytes n d db = some (ok tt, record db { pool = pager.set_bytes n d db.pool })

  abbrev pub unpin_page : ℕ → Action (Db pager) (Unit {0})
  unpin_page n = pool_call (pager.unpin n)

  abbrev pub beside :
      {A : Type 0} → Txn → Option (Result A × Db pager) → Option (Result A × TxnState pager)
  beside t none = none
  beside t (some (r, db)) = some (r, (t, db))

  -- What a transaction does with its database.
  abbrev pub on_db : {A : Type 0} → Action (Db pager) A → Action (TxnState pager) A
  on_db m (t, db) = beside t (m db)

  abbrev pub the_txn : Action (TxnState pager) Txn
  the_txn (t, db) = some (ok t, (t, db))

  abbrev pub the_db : Action (TxnState pager) (Db pager)
  the_db (t, db) = some (ok db, (t, db))

  abbrev pub set_txn : Txn → Action (TxnState pager) (Unit {0})
  set_txn t' (t, db) = some (ok tt, (t', db))

  abbrev pub set_db : Db pager → Action (TxnState pager) (Unit {0})
  set_db db' (t, db) = some (ok tt, (t, db'))
