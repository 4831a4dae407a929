-- ===== src/Txn/Tests.antt =====
-- Runs of transactions over a pool that grants every page.
use frostfire.Prelude.{
  ℕ, ◌+◌, ◌-◌, ◌≤◌, ◌<◌, ◌≡◌, ◌⊎◌, inr, refl, true, false, [], ◌∷◌, arith, ok, ◌==◌, if◌then◌else◌,
  leb,
}
use frostfire.Prelude.Counts.{count, split_last}
use frostfire.Meta.{Meta}
use frostfire.Freelist.{entry, all, pop_reusable}
use frostfire.Txn.Pager.{Pager}
use frostfire.Txn.Defs.{
  Txn, Db, min_reader_txn, begin_read, abort, txn_allocate_page, take_page, recycle, free_page,
}
use frostfire.Txn.Readers.{
  open_count, AllOpen, min_reader_txn-le_reader, min_reader_txn-attained, begin_read-counted,
  abort-counted,
}
use frostfire.Txn.Ownership.{
  IsOwned, Takes, txn_allocate_page-Takes, txn_allocate_page-unseen, free_page-IsOwned,
}

-- The state counts the calls that may change the pool.
abbrev generous : Pager
generous = record {
  State = ℕ;
  get = λ id s. (ok id, s + 1);
  get_for_write = λ id s. (ok id, s + 1);
  allocate_page = λ id s. (ok id, s + 1);
  clear = λ frame s. s + 1;
  mark_clean = λ id s. s + 1;
  flush_page = λ id s. (ok tt, s + 1);
  flush_pages = λ ids s. (ok tt, s + 1);
  flush_all = λ s. (ok tt, s + 1);
  sync = λ s. (ok tt, s + 1);
  unpin = λ frame s. (ok tt, s + 1);
  page_id = λ frame s. frame;
  bytes = λ frame s i. 0;
  set_bytes = λ frame d s. s + 1;
}

abbrev pub meta_7 : Meta
meta_7 = record {
  magic = 0x46495245;
  version = 1;
  page_bytes = 4096;
  txn_id = 7;
  catalog_root = 3;
  freelist_root = 0;
  num_pages = 20;
  checksum = 0;
}

-- Snapshot 5 is read twice, snapshot 7 once.
abbrev db : Db generous
db = record {
  pool = 0;
  current_meta = meta_7;
  current_meta_page = 1;
  pending = entry 5 11 ∷ entry 6 12 ∷ [];
  readers = (5, 2) ∷ (7, 1) ∷ [];
  writer_held = true;
}

abbrev writing : Txn
writing = record {
  writable = true;
  closed = false;
  meta = record meta_7 { num_pages = 22 };
  initial_page_cnt = 20;
  allocated = 20 ∷ [];
  freed = 4 ∷ [];
  reusable = [];
}

abbrev reading : Txn
reading = record writing { writable = false; meta = record meta_7 { txn_id = 5 } }

writing-IsOwned : IsOwned generous writing db
unfolding all
writing-IsOwned = record {
  once = λ j. ground arith;
  gone = λ j. ground arith;
  allocated_below = omega arith;
  freed_below = omega arith;
  reusable_below = tt;
  pending_below = omega arith;
  scratch = tt;
  grown = omega arith;
}

-- Page 11 was freed at 5, and snapshot 5 is the oldest in use.
grants_11 : txn_allocate_page generous writing db ≡ (
  ok (11, 11),
  record writing { allocated = 20 ∷ 11 ∷ [] },
  record db { pool = 2; pending = entry 6 12 ∷ [] },
)
unfolding txn_allocate_page take_page recycle pop_reusable split_last min_reader_txn
grants_11 = refl

min_reader_txn-le_reader_example : min_reader_txn generous db ≤ 5
min_reader_txn-le_reader_example = min_reader_txn-le_reader generous db 5 (inr (omega arith))

min_reader_txn-attained_here :
    (min_reader_txn generous db ≡ 7) ⊎ (0 < open_count (min_reader_txn generous db) db.readers)
min_reader_txn-attained_here = min_reader_txn-attained generous db (omega arith)

begin_read-counted_at_7 :
    ((begin_read generous db).0.meta ≡ meta_7)
    × (open_count 7 ((begin_read generous db).1).readers
        ≡ open_count 7 db.readers + (if 7 == 7 then 1 else 0))
    × AllOpen ((begin_read generous db).1).readers
begin_read-counted_at_7 = begin_read-counted generous db 7 (omega arith)

abort-counted_at_5 :
    (open_count 5 ((abort generous reading db).1).readers
      ≡ open_count 5 db.readers - (if 5 == 5 then 1 else 0))
    × AllOpen ((abort generous reading db).1).readers
    × (((abort generous reading db).0).closed ≡ true)
    × (((abort generous reading db).1).writer_held ≡ true)
abort-counted_at_5 = abort-counted generous reading db 5 (omega arith) refl refl

txn_allocate_page-Takes_example : Takes generous writing db (txn_allocate_page generous writing db)
txn_allocate_page-Takes_example =
    txn_allocate_page-Takes generous writing db writing-IsOwned (omega arith)

free_page-IsOwned_example :
    ((free_page generous 20 writing).0 ≡ ok tt)
    × IsOwned generous (free_page generous 20 writing).1 db
    × (count 20 ((free_page generous 20 writing).1).allocated
        ≡ (if leb 20 20 then 0 else count 20 writing.allocated))
    × (count 20 ((free_page generous 20 writing).1).reusable ≡ (if leb 20 20 then 1 else 0))
    × (count 20 ((free_page generous 20 writing).1).freed ≡ (if leb 20 20 then 0 else 1))
unfolding all
free_page-IsOwned_example =
    free_page-IsOwned generous 20 writing db writing-IsOwned refl refl (omega arith) (ground arith)

-- Snapshots reach pages 0 to 9 only, and snapshot 4 page 11 as well.
abbrev Sees : ℕ → ℕ → Type 0
Sees s id = (id < 10) ⊎ ((s ≡ 4) × (id ≡ 11))

txn_allocate_page-unseen_example : ¬ Sees 5 11
txn_allocate_page-unseen_example =
    txn_allocate_page-unseen generous Sees writing db (λ s id h. omega arith)
      ((λ s h seen. omega arith), ((λ s h seen. omega arith), tt)) 5 writing-IsOwned (omega arith)
      grants_11 (inr (omega arith))
