-- ===== src/Storage/Growth.antt =====
-- Growing the file: the loop ends, the file then holds the page, and sizes stay whole pages.
use frostfire.Prelude.{
  ℕ, zero, suc, ◌+◌, ◌-◌, ◌*◌, ◌%◌, ◌^◌, ◌≤◌, ◌<◌, ◌≡◌, ◌⊎◌, max, arith, some, Result, ok, dec_lt,
}
use frostfire.Bytes.{page_size}
use frostfire.Storage.{
  Disk, StorageManager, word, max_growth, init_file_size, grow_loop, grow_size, get_offset,
  allocate, extend_to,
}

-- The size found covers the requirement, is a whole number of pages, and is either `size` or at
-- least twice as much and 256 pages more.
abbrev pub Grown : ℕ → ℕ → ℕ → Type 0
Grown size required r =
    (required ≤ r)
    × (r < 2 ^ 63)
    × (r % page_size ≡ 0)
    × ((r ≡ size) ⊎ ((2 * size ≤ r) × (size + max_growth ≤ r)))

grow_loop_total :
    (fuel size required : ℕ)
    → required < 2 ^ 62
    → size < 2 ^ 63
    → required - size < fuel
    → 0 < size
    → size % page_size ≡ 0
    → (r : ℕ) × (grow_loop fuel size required ≡ some r) × Grown size required r
unfolding grow_loop
grow_loop_total zero size required small fits enough pos whole = elim enough [ ]
grow_loop_total (suc fuel) size required small fits enough pos whole = elim (dec_lt size required) [
  | no done ↦ (size, ground arith, omega arith)
  | yes more ↦
      let (r, e, g) =
        grow_loop_total fuel ((size + max size max_growth) % word) required small (omega arith)
          (omega arith) (omega arith) (omega arith) in
      (r, ground arith, omega arith)
]

-- For every file of whole pages below 2^63 bytes and requirement below 2^62 growSize ends, and
-- gives a whole number of pages that holds the requirement, below 2^63 bytes: the larger of the
-- file's size and 64 KiB, or at least twice that and 1 MiB (256 pages) more.
pub grow_size_total :
    (file_size required : ℕ)
    → file_size < 2 ^ 63
    → file_size % page_size ≡ 0
    → required < 2 ^ 62
    → (r : ℕ) × (grow_size file_size required ≡ some r)
      × Grown (max file_size init_file_size) required r
unfolding grow_size
grow_size_total file_size required fits whole small =
    grow_loop_total (suc required) (max file_size init_file_size) required small (omega arith)
      (omega arith) (omega arith) (omega arith)

module _ (disk : Disk) where
  open disk use {File, truncate}

  -- The sizes of a file: whole pages, in an `int64`.
  pub record IsSized (s : StorageManager disk) : Type 0 where
    pub whole : s.file_size % page_size ≡ 0
    pub fits : s.file_size < 2 ^ 63

  -- After an Allocate that succeeds, of a page below 2^49 in a file of a sound size, the page can
  -- be reached, at its own offset; the size is sound and has not shrunk.
  pub allocate-reachable :
      (s t : StorageManager disk) (page_id : ℕ)
      → IsSized s
      → page_id < 2 ^ 49
      → allocate disk s page_id ≡ some (ok tt, t)
      → IsSized t
        × (s.file_size ≤ t.file_size)
        × (get_offset disk t page_id ≡ ok (page_id * page_size))
  unfolding allocate get_offset
  allocate-reachable s t page_id v small h = elim (dec_lt s.file_size ((page_id + 1) * page_size)) [
    | no reached ↦ ground arith
    | yes short ↦
        let (r, e, g) =
          grow_size_total s.file_size ((page_id + 1) % word * page_size % word) v.fits v.whole
            (omega arith) in
        ground arith
  ]

  -- Allocate ends, with a result or an error, for a page below 2^49 in a file of a sound size.
  pub allocate_total :
      (s : StorageManager disk) (page_id : ℕ)
      → IsSized s
      → page_id < 2 ^ 49
      → (r : Result (Unit {0})) × (t : StorageManager disk) × (allocate disk s page_id
          ≡ some (r, t))
  unfolding allocate
  allocate_total s page_id v small = elim (dec_lt s.file_size ((page_id + 1) * page_size)) [
    | no reached ↦ (ok tt, s, ground arith)
    | yes short ↦
        let (r, e, g) =
          grow_size_total s.file_size ((page_id + 1) % word * page_size % word) v.fits v.whole
            (omega arith) in
        ((extend_to disk s r).0, (extend_to disk s r).1, ground arith)
  ]
