-- ===== src/Txn/Defs.antt =====
-- The state of a database and of a transaction, and the operations that begin and end transactions
-- and that allocate and free pages.
use frostfire.Prelude.{
  ℕ, ◌+◌, ◌-◌, ◌%◌, ◌^◌, Bool, true, false, not, List, [], ◌∷◌, ◌++◌, ltb, leb, ◌==◌, if◌then◌else◌,
  Option, none, some, Result, ok, err, panic, txn_read_only, txn_closed,
}
use frostfire.Prelude.Counts.{remove_first, split_last}
use frostfire.Meta.{Meta}
use frostfire.Freelist.{Freelist, pop_reusable}
use frostfire.Txn.Pager.{Pager}

-- `readers map[TxnID]int`: a key and its count.
abbrev pub Readers : Type 0
Readers = List (ℕ × ℕ)

-- `db.readers[id]++`
unfoldable pub register : ℕ → Readers → Readers
register id [] = (id, 1) ∷ []
register id ((k, n) ∷ rs) = if k == id then (k, n + 1) ∷ rs else (k, n) ∷ register id rs

-- `if db.readers[id]--; db.readers[id] <= 0 { delete(db.readers, id) }`
unfoldable pub unregister : ℕ → Readers → Readers
unregister id [] = []
unregister id ((k, n) ∷ rs) =
    if k == id then (if leb n 1 then rs else (k, n - 1) ∷ rs) else (k, n) ∷ unregister id rs

-- The loop of minReaderTxn.
unfoldable pub min_key : ℕ → Readers → ℕ
min_key least [] = least
min_key least ((k, n) ∷ rs) = min_key (if ltb k least then k else least) rs

pub record Txn : Type 0 where
  pub writable : Bool
  pub closed : Bool
  pub meta : Meta
  pub initial_page_cnt : ℕ
  pub allocated : List ℕ
  pub freed : List ℕ
  pub reusable : List ℕ

abbrev pub new_txn : Bool → Meta → Txn
new_txn writable m = record {
  writable = writable;
  closed = false;
  meta = m;
  initial_page_cnt = m.num_pages;
  allocated = [];
  freed = [];
  reusable = [];
}

module _ (pager : Pager) where
  open pager use {State, get, get_for_write, allocate_page, clear, mark_clean}

  pub record Db : Type 0 where
    pub pool : State
    pub current_meta : Meta
    pub current_meta_page : ℕ
    pub pending : Freelist
    pub readers : Readers
    pub writer_held : Bool

  unfoldable pub min_reader_txn : Db → ℕ
  unfolding min_key
  min_reader_txn db = min_key (db.current_meta).txn_id db.readers

  unfoldable pub begin_read : Db → Txn × Db
  unfolding register
  begin_read db =
      let m = db.current_meta in
      (new_txn false m, record db { readers = register m.txn_id db.readers })

  -- `none`: the mutex is held, and the call waits.
  unfoldable pub begin_write : Db → Option (Txn × Db)
  begin_write db =
      if db.writer_held
      then none
      else some (new_txn true db.current_meta, record db { writer_held = true })

  unfoldable pub set_catalog_root : ℕ → Txn → Result (Unit {0}) × Txn
  set_catalog_root id t =
      if not t.writable
      then (err txn_read_only, t)
      else (if t.closed
          then (err txn_closed, t)
          else (ok tt, record t { meta = record (t.meta) { catalog_root = id } }))

  unfoldable pub txn_get : ℕ → Txn → Db → Result ℕ × Db
  txn_get id t db =
      if t.closed
      then (err txn_closed, db)
      else (let (r, pool') = get id db.pool in (r, record db { pool = pool' }))

  -- What AllocatePage makes of the pool's answer on page `id`: the page is entered as allocated, or
  -- the error is passed on. After an error the id is in none of the lists.
  unfoldable pub entered : ℕ → Txn → Db → Result ℕ → Result (ℕ × ℕ) × Txn × Db
  entered id t db (ok frame) = (ok (id, frame), record t { allocated = t.allocated ++ id ∷ [] }, db)
  entered id t db (err e) = (err e, t, db)
  entered id t db panic = (panic, t, db)

  -- `clear(page.data)` where the pool gave a page.
  unfoldable pub cleared : Result ℕ → State → State
  cleared (ok frame) s = clear frame s
  cleared (err e) s = s
  cleared panic s = s

  -- The cases 1 and 2 of AllocatePage once the id is known.
  unfoldable pub recycle : ℕ → Txn → Db → Result (ℕ × ℕ) × Txn × Db
  unfolding entered cleared
  recycle id t db =
      let (r, pool') = get_for_write id db.pool in
      entered id t (record db { pool = cleared r pool' }) r

  -- Case 3: the file grows by a page.
  unfoldable pub extend : Txn → Db → Result (ℕ × ℕ) × Txn × Db
  unfolding entered
  extend t db =
      let id = t.meta.num_pages in
      let (r, pool') = allocate_page id db.pool in
      entered id (record t { meta = record (t.meta) { num_pages = (id + 1) % 2 ^ 64 } })
        (record db { pool = pool' }) r

  -- AllocatePage, past its guards. The result is the id of the page and its frame.
  unfoldable pub take_page : Txn → Db → Result (ℕ × ℕ) × Txn × Db
  take_page t db = elim (split_last t.reusable) [
    | some (rest, id) ↦ recycle id (record t { reusable = rest }) db
    | none ↦ elim (pop_reusable (min_reader_txn db) db.pending) [
      | some (id, pending') ↦ recycle id t (record db { pending = pending' })
      | none ↦ extend t db
    ]
  ]

  unfoldable pub txn_allocate_page : Txn → Db → Result (ℕ × ℕ) × Txn × Db
  txn_allocate_page t db =
      if not t.writable
      then (err txn_read_only, t, db)
      else (if t.closed then (err txn_closed, t, db) else take_page t db)

  unfoldable pub free_page : ℕ → Txn → Result (Unit {0}) × Txn
  free_page id t =
      if not t.writable
      then (panic, t)
      else (if t.closed
          then (panic, t)
          else (if leb t.initial_page_cnt id
              then (
                ok tt,
                record t {
                  allocated = remove_first id t.allocated;
                  reusable = t.reusable ++ id ∷ [];
                },
              )
              else (ok tt, record t { freed = t.freed ++ id ∷ [] })))

  unfoldable pub mark_all_clean : List ℕ → State → State
  mark_all_clean [] s = s
  mark_all_clean (id ∷ ids) s = mark_all_clean ids (mark_clean id s)

  -- The two loops of Abort and abortInternal.
  unfoldable pub discard : Txn → State → State
  unfolding mark_all_clean
  discard t s = mark_all_clean t.reusable (mark_all_clean t.allocated s)

  unfoldable pub abort_internal : Txn → Db → Txn × Db
  abort_internal t db =
      (record t { closed = true }, record db { pool = discard t db.pool; writer_held = false })

  unfoldable pub abort : Txn → Db → Txn × Db
  abort t db =
      if t.closed
      then (t, db)
      else (if t.writable
          then (
            record t { closed = true },
            record db { pool = discard t db.pool; writer_held = false },
          )
          else (
            record t { closed = true },
            record db { readers = unregister t.meta.txn_id db.readers },
          ))
