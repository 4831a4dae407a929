-- ===== src/Storage/Vectored.antt =====
-- WritePagesContiguous: several pages in few writes, each of which may stop short.
use frostfire.Prelude.{
  ℕ, zero, suc, ◌+◌, ◌*◌, ◌/◌, ◌%◌, List, [], ◌∷◌, ltb, if◌then◌else◌, length, take, drop, Option,
  none, some, Result, ok, err, panic, io_error,
}
use frostfire.Bytes.{Bytes, page_size}
use frostfire.Storage.{Disk, Buffer, StorageManager, get_offset, exceeds, word}

abbrev pub pwritev_max_iov : ℕ
pwritev_max_iov = 1024

-- `bufs[0] = bufs[0][partial:]`, where the last write stopped inside a page.
unfoldable pub skip_partial : ℕ → List Buffer → Result (List Buffer)
skip_partial zero bufs = ok bufs
skip_partial (suc n) [] = panic
skip_partial (suc n) ((d, from) ∷ bufs) =
    if ltb page_size (from + suc n) then panic else ok ((d, from + suc n) ∷ bufs)

-- `bufs[full:]`, and the partial page.
unfoldable pub advance : ℕ → List Buffer → Result (List Buffer)
unfolding skip_partial
advance n bufs =
    if ltb (length bufs) (n / page_size)
    then panic
    else skip_partial (n % page_size) (drop (n / page_size) bufs)

-- The buffers of whole pages.
unfoldable pub whole_pages : List Bytes → List Buffer
whole_pages [] = []
whole_pages (d ∷ ds) = (d, 0) ∷ whole_pages ds

module _ (disk : Disk) where
  open disk use {File, pwritev}

  -- pwritevFull; `none` is fuel that ran out.
  unfoldable pub pwritev_full : ℕ → File → List Buffer → ℕ → Option (Result (Unit {0}) × File)
  unfolding advance
  pwritev_full zero f bufs offset = none
  pwritev_full (suc fuel) f [] offset = some (ok tt, f)
  pwritev_full (suc fuel) f (b ∷ bs) offset =
      let (n, f') = pwritev f (take pwritev_max_iov (b ∷ bs)) offset in
      elim n [
        | none ↦ some (err io_error, f')
        | some n ↦ elim (advance n (b ∷ bs)) [
          | ok bufs' ↦ pwritev_full fuel f' bufs' (offset + n)
          | err e ↦ some (err e, f')
          | panic ↦ some (panic, f')
        ]
      ]

  -- WritePagesContiguous, on whole pages.
  unfoldable pub write_pages_contiguous :
      ℕ → StorageManager disk → ℕ → List Bytes → Option (Result (Unit {0}) × StorageManager disk)
  unfolding get_offset pwritev_full whole_pages
  write_pages_contiguous fuel s start [] = some (ok tt, s)
  write_pages_contiguous fuel s start (b ∷ bs) = elim (get_offset disk s start) [
    | panic ↦ some (panic, s)
    | err e ↦ some (err e, s)
    | ok offset ↦
        if exceeds ((offset + length (b ∷ bs) * page_size) % word) s.file_size
        then some (panic, s)
        else elim (pwritev_full fuel s.file (whole_pages (b ∷ bs)) offset) [
          | none ↦ none
          | some (r, f') ↦ some (r, record s { file = f' })
        ]
  ]
