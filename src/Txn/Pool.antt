-- ===== src/Txn/Pool.antt =====
-- The buffer pool as the Pager of transactions.
use frostfire.Prelude.{ℕ, Bool, Option, none, some, Result, panic}
use frostfire.Bytes.{Bytes}
use frostfire.Storage.{Disk}
use frostfire.BufferPool.Defs.{
  BufferPool, set_frame, get, get_for_write, allocate_page, mark_clean, unpin, flush_page, sync,
}
use frostfire.BufferPool.Flush.{flush_pages, flush_all}
use frostfire.Txn.Pager.{Pager}

-- Fuel that ran out counts as a panic.
abbrev pub finished {ℓ κ} : {S : Type ℓ} {A : Type κ} → S → Option (Result A × S) → Result A × S
finished s none = (panic, s)
finished s (some (r, t)) = (r, t)

unfoldable pub clear_frame : (disk : Disk) → ℕ → BufferPool disk → BufferPool disk
clear_frame disk i bp = set_frame disk bp i (record (bp.frames i) { bytes = λ p. 0 })

unfoldable pub write_frame : (disk : Disk) → ℕ → Bytes → BufferPool disk → BufferPool disk
write_frame disk i d bp = set_frame disk bp i (record (bp.frames i) { bytes = d })

-- `fuel` bounds the writes of a run of pages, `under_way` says which runs of a flush had begun when one
-- failed.
abbrev pub buffer_pool : Disk → ℕ → (ℕ → Bool) → Pager
buffer_pool disk fuel under_way = record {
  State = BufferPool disk;
  get = λ id s. finished s (get disk id s);
  get_for_write = λ id s. finished s (get_for_write disk id s);
  allocate_page = λ id s. finished s (allocate_page disk id s);
  clear = clear_frame disk;
  mark_clean = mark_clean disk;
  flush_page = flush_page disk;
  flush_pages = λ ids s. finished s (flush_pages disk fuel under_way ids s);
  flush_all = λ s. finished s (flush_all disk fuel under_way s);
  sync = sync disk;
  unpin = unpin disk;
  page_id = λ i bp. (bp.frames i).page_id;
  bytes = λ i bp. (bp.frames i).bytes;
  set_bytes = write_frame disk;
}
