-- ===== src/BufferPool/Fresh.antt =====
-- A pool that has just been made.
use frostfire.Prelude.{ℕ, ◌<◌, refl, arith}
use frostfire.Bytes.{Bytes}
use frostfire.Storage.{Disk, StorageManager}
use frostfire.Storage.Pages.{DiskLaws, Inside, stored}
use frostfire.BufferPool.Defs.{new_buffer_pool}
use frostfire.BufferPool.Coherence.{AtRest}

module _ {disk : Disk} (laws : DiskLaws disk) where
  -- A new pool stands for the pages of its file.
  pub new_buffer_pool-AtRest :
      (sm : StorageManager disk) (size : ℕ) (buffer : Bytes)
      → 0 < size
      → AtRest laws
          (stored laws sm)
          (Inside disk sm)
          (Inside disk sm)
          (new_buffer_pool disk sm size buffer)
  unfolding new_buffer_pool
  new_buffer_pool-AtRest sm size buffer some_frame = record {
    some_frame = some_frame;
    marked = λ i. refl;
    usage = λ i. omega arith;
    mapped = λ id i e. absurd (ground (arith, e));
    inside = λ id i e. absurd (ground (arith, e));
    owned = λ i used. absurd (used refl);
    unpinned = λ i free. (refl, refl);
    settled = λ id i st e. absurd (ground (arith, e));
    settled_live = λ id st. st;
    cached = λ id i live e. absurd (ground (arith, e));
    on_disk = λ id live clean. refl;
    in_file = λ id live. live;
  }
