-- ===== src/Storage/Tests.antt =====
-- Runs of the storage manager over a disk that keeps a page for each offset.
use frostfire.Prelude.{
  ℕ, ◌≤◌, ◌≡◌, refl, true, arith, some, none, Result, ok, max, ◌==◌, if◌then◌else◌,
}
use frostfire.Bytes.{Bytes}
use frostfire.Storage.{Disk, StorageManager, allocate, grow_size, get_offset, init_file_size}
use frostfire.Storage.Growth.{Grown, grow_size_total, IsSized, allocate-reachable, allocate_total}

abbrev memory : Disk
memory = record {
  File = ℕ → Bytes;
  read_at = λ f o. some (f o);
  write_at = λ f o b. (true, λ p. if p == o then b else f p);
  truncate = λ f size. (true, f);
  sync_file = λ f. (true, f);
  pwritev = λ f bufs o. (none, f);
  close_file = λ f. true;
}

abbrev blank : StorageManager memory
blank = record { file = λ o p. 0; file_size = 0 }

abbrev grown : StorageManager memory
grown = record { file = λ o p. 0; file_size = 1114112 }

-- A page past the first 16: 64 KiB and a step of 1 MiB.
allocate_20 : allocate memory blank 20 ≡ some (ok tt, grown)
unfolding allocate grow_size
allocate_20 = refl

grow_size_total_example :
    (r : ℕ) × (grow_size 0 86016 ≡ some r) × Grown (max 0 init_file_size) 86016 r
grow_size_total_example = grow_size_total 0 86016 (omega arith) (omega arith) (omega arith)

allocate-reachable_example :
    IsSized memory grown × (0 ≤ 1114112) × (get_offset memory grown 20 ≡ ok 81920)
allocate-reachable_example =
    allocate-reachable memory blank grown 20 (omega arith) (omega arith) allocate_20

allocate_total_at_20 :
    (r : Result (Unit {0})) × (t : StorageManager memory) × (allocate memory blank 20 ≡ some (r, t))
allocate_total_at_20 = allocate_total memory blank 20 (omega arith) (omega arith)
