-- ===== src/BufferPool/Flush.antt =====
-- Writing dirty frames back in runs of consecutive pages: FlushPages, FlushAll and Close. The runs
-- are written in the order in which their goroutines are started; `under_way` says of each run
-- whether it had begun when an earlier one failed.
use frostfire.Prelude.{
  ℕ, zero, suc, ◌+◌, ◌%◌, ◌^◌, Bool, false, not, ◌||◌, List, [], ◌∷◌, map, leb, ◌==◌, if◌then◌else◌,
  length, Option, none, some, Result, ok, err, panic, Error,
}
use frostfire.Storage.{Disk}
use frostfire.Storage
use frostfire.Storage.Vectored.{write_pages_contiguous}
use frostfire.BufferPool.Defs.{Frame, BufferPool, set_frame, sync}

module _ (disk : Disk) where
  -- A frame that is to be written.
  abbrev pub is_dirty : Frame → Bool
  is_dirty frame = not (frame.evicting || not frame.dirty)

  -- The loop of FlushPages: the frames of the pages that are cached and dirty.
  unfoldable pub dirty_of : List ℕ → BufferPool disk → List ℕ
  dirty_of [] bp = []
  dirty_of (id ∷ ids) bp =
      let rest = dirty_of ids bp in
      elim (bp.table id) [
        | none ↦ rest
        | some i ↦ if is_dirty (bp.frames i) then i ∷ rest else rest
      ]

  -- The loop of FlushAll, on the last `count` frames.
  unfoldable pub dirty_from : (count i : ℕ) → BufferPool disk → List ℕ
  dirty_from zero i bp = []
  dirty_from (suc count) i bp =
      let rest = dirty_from count (i + 1) bp in if is_dirty (bp.frames i) then i ∷ rest else rest

  -- `slices.SortFunc` by page id.
  unfoldable pub insert_by_page : ℕ → List ℕ → BufferPool disk → List ℕ
  insert_by_page i [] bp = i ∷ []
  insert_by_page i (j ∷ js) bp =
      if leb (bp.frames i).page_id (bp.frames j).page_id
      then i ∷ j ∷ js
      else j ∷ insert_by_page i js bp

  unfoldable pub sort_by_page : List ℕ → BufferPool disk → List ℕ
  unfolding insert_by_page
  sort_by_page [] bp = []
  sort_by_page (i ∷ is) bp = insert_by_page i (sort_by_page is bp) bp

  -- A frame before the runs of the frames after it.
  unfoldable pub join_run : ℕ → List (List ℕ) → BufferPool disk → List (List ℕ)
  join_run i [] bp = (i ∷ []) ∷ []
  join_run i ([] ∷ runs) bp = (i ∷ []) ∷ runs
  join_run i ((j ∷ js) ∷ runs) bp =
      if (bp.frames j).page_id == ((bp.frames i).page_id + 1) % 2 ^ 64
      then (i ∷ j ∷ js) ∷ runs
      else (i ∷ []) ∷ (j ∷ js) ∷ runs

  -- The runs of consecutive pages.
  unfoldable pub runs_of : List ℕ → BufferPool disk → List (List ℕ)
  unfolding join_run
  runs_of [] bp = []
  runs_of (i ∷ is) bp = join_run i (runs_of is bp) bp

  unfoldable pub clean_run : List ℕ → BufferPool disk → BufferPool disk
  clean_run [] bp = bp
  clean_run (i ∷ is) bp = clean_run is (
      if (bp.frames i).evicting
      then bp
      else set_frame disk bp i (record (bp.frames i) { dirty = false }))

  -- One goroutine: a run is written, and its frames are clean.
  unfoldable pub write_run :
      ℕ → List ℕ → BufferPool disk → Option (Result (Unit {0}) × BufferPool disk)
  unfolding clean_run
  write_run fuel [] bp = some (panic, bp)
  write_run fuel (i ∷ is) bp =
      elim (write_pages_contiguous disk fuel bp.sm ((bp.frames i).page_id)
        (map (λ j. (bp.frames j).bytes) (i ∷ is))) [
          | none ↦ none
          | some (ok u, sm') ↦ some (ok u, clean_run (i ∷ is) (record bp { sm = sm' }))
          | some (err e, sm') ↦ some (err e, record bp { sm = sm' })
          | some (panic, sm') ↦ some (panic, record bp { sm = sm' })
        ]

  abbrev outcome : Option Error → Result (Unit {0})
  outcome none = ok tt
  outcome (some e) = err e

  -- `g.Wait()`: the first error, if there was one.
  unfoldable pub write_runs :
      ℕ
      → (ℕ → Bool)
      → (k : ℕ) → List (List ℕ)
      → Option Error
      → BufferPool disk
      → Option (Result (Unit {0}) × BufferPool disk)
  unfolding write_run
  write_runs fuel under_way k [] failed bp = some (outcome failed, bp)
  write_runs fuel under_way k (run ∷ runs) (some e) bp =
      if under_way k
      then elim (write_run fuel run bp) [
        | none ↦ none
        | some (panic, bp') ↦ some (panic, bp')
        | some (ok u, bp') ↦ write_runs fuel under_way (k + 1) runs (some e) bp'
        | some (err e', bp') ↦ write_runs fuel under_way (k + 1) runs (some e) bp'
      ]
      else write_runs fuel under_way (k + 1) runs (some e) bp
  write_runs fuel under_way k (run ∷ runs) none bp = elim (write_run fuel run bp) [
    | none ↦ none
    | some (panic, bp') ↦ some (panic, bp')
    | some (ok u, bp') ↦ write_runs fuel under_way (k + 1) runs none bp'
    | some (err e, bp') ↦ write_runs fuel under_way (k + 1) runs (some e) bp'
  ]

  unfoldable pub flush_dirty :
      ℕ → (ℕ → Bool) → List ℕ → BufferPool disk → Option (Result (Unit {0}) × BufferPool disk)
  unfolding sort_by_page runs_of write_runs
  flush_dirty fuel under_way dirty bp =
      if length dirty == 0
      then some (ok tt, bp)
      else write_runs fuel under_way 0 (runs_of (sort_by_page dirty bp) bp) none bp

  unfoldable pub flush_pages :
      ℕ → (ℕ → Bool) → List ℕ → BufferPool disk → Option (Result (Unit {0}) × BufferPool disk)
  unfolding dirty_of flush_dirty
  flush_pages fuel under_way ids bp = flush_dirty fuel under_way (dirty_of ids bp) bp

  unfoldable pub flush_all :
      ℕ → (ℕ → Bool) → BufferPool disk → Option (Result (Unit {0}) × BufferPool disk)
  unfolding dirty_from flush_dirty
  flush_all fuel under_way bp = flush_dirty fuel under_way (dirty_from bp.n_frames 0 bp) bp

  -- `errors.Join`: an error if one of the two is.
  abbrev join_errors : Result (Unit {0}) → Result (Unit {0}) → Result (Unit {0})
  join_errors (ok u) r = r
  join_errors (err e) panic = panic
  join_errors (err e) _ = err e
  join_errors panic r = panic

  unfoldable pub close :
      ℕ → (ℕ → Bool) → BufferPool disk → Option (Result (Unit {0}) × BufferPool disk)
  unfolding flush_all sync
  close fuel under_way bp = elim (flush_all fuel under_way bp) [
    | none ↦ none
    | some (flushed, bp1) ↦
        let (synced, bp2) = sync disk bp1 in
        some (join_errors flushed (join_errors synced (Storage.close disk bp2.sm)), bp2)
  ]
