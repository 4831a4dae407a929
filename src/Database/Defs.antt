-- ===== src/Database/Defs.antt =====
-- Open and Close, and the writing and reading of the header that they need (initMetas, loadMeta).
use frostfire.Prelude.{
  ℕ, Bool, true, false, List, [], ◌==◌, if◌then◌else◌, Option, none, some, Result, ok, err, panic,
}
use frostfire.Bytes.{Bytes, page_size}
use frostfire.Meta.{
  Meta, Checksum, meta_magic, meta_version, meta_page0, meta_page1, encode, decode, choose_meta,
}
use frostfire.Freelist.{load}
use frostfire.Storage.{Disk, StorageManager, new_storage_manager}
use frostfire.BufferPool.Defs.{new_buffer_pool}
use frostfire.BufferPool.Flush
use frostfire.BTree.Action.{Action, pure, lift, finally, caught, on_error, ◌>>=◌, ◌>>◌}
use frostfire.Txn.Pager.{Pager}
use frostfire.Txn.Pool.{buffer_pool}
use frostfire.Txn.Defs.{Db}
use frostfire.Txn.Run.{pool_call, page_bytes, set_page_bytes, unpin_page}
use frostfire.Txn.Persist.{read_chain}
use frostfire.Txn.Commit.{publish_meta}

abbrev pub default_buffer_size : ℕ
default_buffer_size = 1024

-- The header of a new database.
abbrev pub base_meta : Meta
base_meta = record {
  magic = meta_magic;
  version = meta_version;
  page_bytes = page_size;
  txn_id = 0;
  catalog_root = 0;
  freelist_root = 0;
  num_pages = 2;
  checksum = 0;
}

module _ (pager : Pager) (crc : Checksum) where
  open pager use {get, allocate_page, flush_all, sync}

  -- One of the two pages of initMetas; the header that is passed on has its checksum.
  unfoldable pub init_meta : Meta → ℕ → Action (Db pager) Meta
  init_meta m id = do
    n ← pool_call pager (allocate_page id)
    finally
        (do
          d ← page_bytes pager n
          (d', m') ← lift (encode crc m page_size d)
          set_page_bytes pager n d'
          pure m')
        (unpin_page pager n)

  unfoldable pub init_metas : Action (Db pager) (Unit {0})
  unfolding init_meta
  init_metas = do
    m ← init_meta base_meta meta_page0
    m' ← init_meta m meta_page1
    pool_call pager flush_all
    pool_call pager sync
    publish_meta pager crc m' meta_page0

  -- What one page gives, once Get has answered, and the deferred Unpin.
  unfoldable pub decoded : Result ℕ → Action (Db pager) (Result Meta)
  decoded (ok n) = page_bytes pager n >>= λ d. pure (decode crc page_size d)
  decoded (err e) = pure (err e)
  decoded panic = lift panic

  abbrev pub unpin_got : Result ℕ → Action (Db pager) (Unit {0})
  unpin_got (ok n) = unpin_page pager n
  unpin_got (err e) = pure tt
  unpin_got panic = pure tt

  -- loadMeta
  unfoldable pub load_newest : Action (Db pager) (Meta × ℕ)
  unfolding decoded
  load_newest = do
    got0 ← caught (pool_call pager (get meta_page0))
    got1 ← caught (pool_call pager (get meta_page1))
    m0 ← decoded got0
    m1 ← decoded got1
    unpin_got got1
    unpin_got got0
    lift (choose_meta m0 m1)

  abbrev pub load_pending : List ℕ → Action (Db pager) (Unit {0})
  unfolding load
  load_pending ids db = some (ok tt, record db { pending = load ids })

  abbrev load_freelist : ℕ → (root : ℕ) → Action (Db pager) (Unit {0})
  unfolding read_chain load
  load_freelist fuel root =
      if root == 0 then pure tt else (read_chain pager fuel root [] >>= load_pending)

  -- Open on a file that has pages.
  unfoldable pub restore : ℕ → Action (Db pager) (Unit {0})
  unfolding load_newest load_freelist read_chain load
  restore fuel = do
    (m, page) ← load_newest
    publish_meta pager crc m page
    load_freelist fuel (m.freelist_root)

module _ (disk : Disk) (fuel : ℕ) (under_way : ℕ → Bool) (crc : Checksum) where
  abbrev pub pool_of : Pager
  pool_of = buffer_pool disk fuel under_way

  -- The database before a header is stored. The frames begin with some bytes.
  abbrev pub blank_db : StorageManager disk → ℕ → Bytes → Db pool_of
  unfolding new_buffer_pool
  blank_db sm size buffer = record {
    pool = new_buffer_pool disk sm (if size == 0 then default_buffer_size else size) buffer;
    current_meta = base_meta;
    current_meta_page = 0;
    pending = [];
    readers = [];
    writer_held = false;
  }

  unfoldable pub close_pool : Action (Db pool_of) (Unit {0})
  unfolding Flush.close
  close_pool db = elim (Flush.close disk fuel under_way db.pool) [
    | none ↦ none
    | some (r, pool') ↦ some (r, record db { pool = pool' })
  ]

  -- `db.bufferPool.Close()`, whose error is dropped.
  abbrev close_quietly : Action (Db pool_of) (Unit {0})
  unfolding close_pool
  close_quietly = caught close_pool >>= λ closed. pure tt

  unfoldable pub open_pool : (is_new : Bool) → Action (Db pool_of) (Unit {0})
  unfolding init_metas restore close_quietly close_pool
  open_pool true = on_error (init_metas pool_of crc) close_quietly
  open_pool false = on_error (restore pool_of crc fuel) close_quietly

  -- Open, on the file that was opened and its size.
  unfoldable pub open_db :
      disk.File
      → (file_size buffer_size : ℕ) → Bytes
      → Result (Option (Result (Unit {0}) × Db pool_of))
  unfolding new_storage_manager open_pool blank_db new_buffer_pool
  open_db file file_size buffer_size buffer = elim (new_storage_manager disk file file_size) [
    | ok (sm, is_new) ↦ ok (open_pool is_new (blank_db sm buffer_size buffer))
    | err e ↦ err e
    | panic ↦ panic
  ]

  -- Close
  unfoldable pub close_db : Action (Db pool_of) (Unit {0})
  unfolding close_pool
  close_db = close_pool
