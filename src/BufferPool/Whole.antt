-- ===== src/BufferPool/Whole.antt =====
-- Flushes whose writes all stop at ends of pages.
use frostfire.Prelude.{
  ℕ, ◌+◌, ◌*◌, ◌≡◌, Bool, true, false, List, [], ◌∷◌, map, Option, none, some, Result, Error, ok,
  err, panic,
}
use frostfire.Bytes.{page_size}
use frostfire.Storage.{Disk}
use frostfire.Storage.Pages.{DiskLaws}
use frostfire.Storage.Vectored.{whole_pages}
use frostfire.Storage.Batches.{NeverInside}
use frostfire.BufferPool.Defs.{BufferPool}
use frostfire.BufferPool.Flush.{sort_by_page, runs_of, write_run}

-- The first error, after a run.
abbrev pub failure : Option Error → Result (Unit {0}) → Option Error
failure (some e) r = some e
failure none (err e) = some e
failure none (ok u) = none
failure none panic = none

module _ {disk : Disk} (laws : DiskLaws disk) where
  -- No write of the run stops inside a page.
  abbrev pub WholeRun : ℕ → List ℕ → BufferPool disk → Type 0
  WholeRun fuel [] s = Unit {0}
  WholeRun fuel (i ∷ is) s =
      NeverInside laws fuel s.sm.file (whole_pages (map (λ j. (s.frames j).bytes) (i ∷ is)))
        ((s.frames i).page_id * page_size)

  -- No write of these runs, each on the pool and the file that the ones before it leave, stops inside
  -- a page.
  unfoldable pub WholeRuns :
      (fuel : ℕ) (under_way : ℕ → Bool) (k : ℕ)
      → List (List ℕ)
      → Option Error
      → BufferPool disk
      → Type 0
  WholeRuns fuel under_way k [] failed s = Unit {0}
  WholeRuns fuel under_way k (run ∷ runs) none s =
      WholeRun fuel run s
      × ((r : Result (Unit {0})) (t : BufferPool disk)
          → write_run disk fuel run s ≡ some (r, t)
          → WholeRuns fuel under_way (k + 1) runs (failure none r) t)
  WholeRuns fuel under_way k (run ∷ runs) (some e) s =
      (under_way k ≡ true
        → WholeRun fuel run s
          × ((r : Result (Unit {0})) (t : BufferPool disk)
              → write_run disk fuel run s ≡ some (r, t)
              → WholeRuns fuel under_way (k + 1) runs (some e) t))
      × (under_way k ≡ false → WholeRuns fuel under_way (k + 1) runs (some e) s)

  -- No write of the flush stops inside a page.
  abbrev pub WholeFlush : ℕ → (ℕ → Bool) → List ℕ → BufferPool disk → Type 0
  WholeFlush fuel under_way is s =
      WholeRuns fuel under_way 0 (runs_of disk (sort_by_page disk is s) s) none s
