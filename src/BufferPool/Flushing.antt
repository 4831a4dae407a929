-- ===== src/BufferPool/Flushing.antt =====
-- FlushPages on a coherent pool.
use frostfire.Prelude.{
  ℕ, ◌+◌, ◌*◌, ◌^◌, ◌≤◌, ◌<◌, ◌≡◌, refl, sym, subst, Bool, false, arith, List, [], ◌∷◌, Bool-cases,
  inl, inr, length, All, if◌then◌else◌, Option, none, some, Result, Error, ok, err, panic, ne→==,
}
use frostfire.Bytes.{Bytes, page_size}
use frostfire.Storage.{Disk}
use frostfire.Storage.Pages.{DiskLaws}
use frostfire.Storage.Batches.{VectorLaws}
use frostfire.BufferPool.Defs.{BufferPool}
use frostfire.BufferPool.Flush.{sort_by_page, runs_of, write_run, write_runs, flush_dirty}
use frostfire.BufferPool.Whole.{WholeRuns, WholeFlush, failure}
use frostfire.BufferPool.Coherence.{AtRest}
use frostfire.BufferPool.Sorting.{
  DirtyPage, Different, AllRuns, All-sort_by_page, All-runs_of, Rising-sort_by_page,
}
use frostfire.BufferPool.Runs.{Todo, Todo-runs_of, Todo-kept}
use frostfire.BufferPool.Sweeps.{All-Swept, Sweeps, write_run-Sweeps}
use frostfire.BufferPool.Swept.{Swept, Swept-refl, Swept-trans, Row-Swept}

module _ {disk : Disk} (laws : DiskLaws disk) (vectors : VectorLaws laws) (page : ℕ → Bytes)
    (Live Settled : ℕ → Type 0) where
  -- How a flush ends: all frames of the runs are clean, or there is an error.
  abbrev Flushes :
      BufferPool disk → List (List ℕ) → Option (Result (Unit {0}) × BufferPool disk) → Type 0
  Flushes s runs none = ⊥
  Flushes s runs (some (ok u, t)) =
      AtRest laws page Live Settled t × Swept s t × AllRuns (λ i. (t.frames i).dirty ≡ false) runs
  Flushes s runs (some (err e, t)) = AtRest laws page Live Settled t × Swept s t
  Flushes s runs (some (panic, t)) = ⊥

  -- After a failure there is an error at the end.
  abbrev Fails : BufferPool disk → Option (Result (Unit {0}) × BufferPool disk) → Type 0
  Fails s none = ⊥
  Fails s (some (ok u, t)) = ⊥
  Fails s (some (err e, t)) = AtRest laws page Live Settled t × Swept s t
  Fails s (some (panic, t)) = ⊥

  Fails-after :
      (s t : BufferPool disk) (o : Option (Result (Unit {0}) × BufferPool disk))
      → Swept s t
      → Fails t o
      → Fails s o
  Fails-after s t none sw h = h
  Fails-after s t (some (ok u, t')) sw h = h
  Fails-after s t (some (err e, t')) sw h = (h.0, Swept-trans sw h.1)
  Fails-after s t (some (panic, t')) sw h = h

  Fails-Flushes :
      (s : BufferPool disk) (runs : List (List ℕ))
      (o : Option (Result (Unit {0}) × BufferPool disk))
      → Fails s o
      → Flushes s runs o
  Fails-Flushes s runs none h = h
  Fails-Flushes s runs (some (ok u, t)) h = absurd h
  Fails-Flushes s runs (some (err e, t)) h = h
  Fails-Flushes s runs (some (panic, t)) h = h

  Flushes-after :
      (s t : BufferPool disk) (run : List ℕ) (runs : List (List ℕ))
      (o : Option (Result (Unit {0}) × BufferPool disk))
      → Swept s t
      → All (λ i. (t.frames i).dirty ≡ false) run
      → Flushes t runs o
      → Flushes s (run ∷ runs) o
  Flushes-after s t run runs none sw clean h = h
  Flushes-after s t run runs (some (ok u, t')) sw clean h =
      (h.0, Swept-trans sw h.1, (All-Swept laws page Live Settled run h.1 clean, h.2))
  Flushes-after s t run runs (some (err e, t')) sw clean h = (h.0, Swept-trans sw h.1)
  Flushes-after s t run runs (some (panic, t')) sw clean h = h

  -- Once a run has failed, the runs that had begun are still written.
  failed-Fails :
      (fuel : ℕ) (under_way : ℕ → Bool) (k least : ℕ) (runs : List (List ℕ)) (e : Error)
      (s : BufferPool disk)
      → AtRest laws page Live Settled s
      → s.sm.file_size < fuel * page_size
      → Todo s least runs
      → WholeRuns laws fuel under_way k runs (some e) s
      → Fails s (write_runs disk fuel under_way k runs (some e) s)
  unfolding write_runs WholeRuns
  failed-Fails fuel under_way k least [] e s c enough todo never = (c, Swept-refl s s.sm refl)
  failed-Fails fuel under_way k least (run ∷ runs) e s c enough (start, le, pos, row, rest) never =
      elim (Bool-cases (under_way k)) [
        | inr later ↦ rw later (
            failed-Fails fuel under_way (k + 1) (start + length run) runs e s c enough rest
              (never.1 later))
        | inl early ↦ rw early (
            begun (write_run disk fuel run s)
              (write_run-Sweeps laws page Live Settled vectors fuel s start run c enough pos row
                (never.0 early).0)
              (never.0 early).1
              (λ t c' sw same.
                failed-Fails fuel under_way (k + 1) (start + length run) runs e t c'
                  (rw sw.size enough)
                  (Todo-kept s t (start + length run) runs
                    (Row-Swept (start + length run) s t sw same) rest)))
      ]
    where
      begun :
          (o : Option (Result (Unit {0}) × BufferPool disk))
          → Sweeps laws page Live Settled vectors s start run o
          → ((r : Result (Unit {0})) (t : BufferPool disk)
              → o ≡ some (r, t)
              → WholeRuns laws fuel under_way (k + 1) runs (some e) t)
          → ((t : BufferPool disk)
              → AtRest laws page Live Settled t
              → Swept s t
              → ((id j : ℕ)
                  → s.table id ≡ some j
                  → start + length run ≤ id
                  → (t.frames j).dirty ≡ (s.frames j).dirty)
              → WholeRuns laws fuel under_way (k + 1) runs (some e) t
              → Fails t (write_runs disk fuel under_way (k + 1) runs (some e) t))
          → Fails s (elim o [
            | none ↦ none
            | some (panic, bp') ↦ some (panic, bp')
            | some (ok u, bp') ↦ write_runs disk fuel under_way (k + 1) runs (some e) bp'
            | some (err e', bp') ↦ write_runs disk fuel under_way (k + 1) runs (some e) bp'
          ])
      begun none h never go = h
      begun (some (panic, t)) h never go = absurd h
      begun (some (ok u, t)) (c', sw, same, all) never go =
          Fails-after s t (write_runs disk fuel under_way (k + 1) runs (some e) t) sw
            (go t c' sw same (never (ok u) t refl))
      begun (some (err e', t)) (c', sw, same) never go =
          Fails-after s t (write_runs disk fuel under_way (k + 1) runs (some e) t) sw
            (go t c' sw same (never (err e') t refl))

  write_runs-Flushes :
      (fuel : ℕ) (under_way : ℕ → Bool) (k least : ℕ) (runs : List (List ℕ)) (s : BufferPool disk)
      → AtRest laws page Live Settled s
      → s.sm.file_size < fuel * page_size
      → Todo s least runs
      → WholeRuns laws fuel under_way k runs none s
      → Flushes s runs (write_runs disk fuel under_way k runs none s)
  unfolding write_runs WholeRuns
  write_runs-Flushes fuel under_way k least [] s c enough todo never =
      (c, Swept-refl s s.sm refl, tt)
  write_runs-Flushes fuel under_way k least (run ∷ runs) s c enough (start, le, pos, row, rest)
        never =
      next (write_run disk fuel run s)
        (write_run-Sweeps laws page Live Settled vectors fuel s start run c enough pos row never.0)
        never.1
        (λ t c' sw.
          write_runs-Flushes fuel under_way (k + 1) (start + length run) runs t c'
            (rw sw.size enough))
    where
      still :
          (t : BufferPool disk)
          → Swept s t
          → ((id j : ℕ)
              → s.table id ≡ some j
              → start + length run ≤ id
              → (t.frames j).dirty ≡ (s.frames j).dirty)
          → Todo t (start + length run) runs
      still t sw same =
          Todo-kept s t (start + length run) runs (Row-Swept (start + length run) s t sw same) rest

      next :
          (o : Option (Result (Unit {0}) × BufferPool disk))
          → Sweeps laws page Live Settled vectors s start run o
          → ((r : Result (Unit {0})) (t : BufferPool disk)
              → o ≡ some (r, t)
              → WholeRuns laws fuel under_way (k + 1) runs (failure none r) t)
          → ((t : BufferPool disk)
              → AtRest laws page Live Settled t
              → Swept s t
              → Todo t (start + length run) runs
              → WholeRuns laws fuel under_way (k + 1) runs none t
              → Flushes t runs (write_runs disk fuel under_way (k + 1) runs none t))
          → Flushes s (run ∷ runs) (elim o [
            | none ↦ none
            | some (panic, bp') ↦ some (panic, bp')
            | some (ok u, bp') ↦ write_runs disk fuel under_way (k + 1) runs none bp'
            | some (err e, bp') ↦ write_runs disk fuel under_way (k + 1) runs (some e) bp'
          ])
      next none h never go = h
      next (some (panic, t)) h never go = absurd h
      next (some (ok u, t)) (c', sw, same, all) never go =
          Flushes-after s t run runs (write_runs disk fuel under_way (k + 1) runs none t) sw all
            (go t c' sw (still t sw same) (never (ok u) t refl))
      next (some (err e, t)) (c', sw, same) never go =
          Fails-Flushes s (run ∷ runs) (write_runs disk fuel under_way (k + 1) runs (some e) t) (
            Fails-after s t (write_runs disk fuel under_way (k + 1) runs (some e) t) sw (
              failed-Fails fuel under_way (k + 1) (start + length run) runs e t c'
                (rw sw.size enough) (still t sw same) (never (err e) t refl)))

  -- How a flush of frames ends.
  abbrev pub FlushesFrames :
      BufferPool disk → List ℕ → Option (Result (Unit {0}) × BufferPool disk) → Type 0
  FlushesFrames s is none = ⊥
  FlushesFrames s is (some (ok u, t)) =
      AtRest laws page Live Settled t × Swept s t × All (λ i. (t.frames i).dirty ≡ false) is
  FlushesFrames s is (some (err e, t)) = AtRest laws page Live Settled t × Swept s t
  FlushesFrames s is (some (panic, t)) = ⊥

  pub flush_dirty-FlushesFrames :
      (fuel : ℕ) (under_way : ℕ → Bool) (is : List ℕ) (s : BufferPool disk)
      → AtRest laws page Live Settled s
      → s.sm.file_size < fuel * page_size
      → Different s is
      → WholeFlush laws fuel under_way is s
      → FlushesFrames s is (flush_dirty disk fuel under_way is s)
  unfolding flush_dirty
  flush_dirty-FlushesFrames fuel under_way [] s c enough diff never =
      (c, Swept-refl s s.sm refl, tt)
  flush_dirty-FlushesFrames fuel under_way (i ∷ is) s c enough diff never =
      subst (λ b. FlushesFrames s (i ∷ is) (if b then some (ok tt, s) else writing))
        (sym (ne→== (length (i ∷ is)) 0 (omega arith)))
        (frames writing (
          write_runs-Flushes fuel under_way 0 0 (runs_of disk (sort_by_page disk (i ∷ is) s) s) s c
            enough
            (Todo-runs_of s 0 (sort_by_page disk (i ∷ is) s) bounded
              (Rising-sort_by_page s (i ∷ is) diff))
            never))
    where
      writing : Option (Result (Unit {0}) × BufferPool disk)
      writing =
          write_runs disk fuel under_way 0 (runs_of disk (sort_by_page disk (i ∷ is) s) s) none s

      bounded : (j : ℕ) → DirtyPage s j → (s.frames j).page_id + 1 < 2 ^ 64
      bounded j dirty = let size = c.inside (s.frames j).page_id j dirty.0 in omega (arith, size)

      frames :
          (o : Option (Result (Unit {0}) × BufferPool disk))
          → Flushes s (runs_of disk (sort_by_page disk (i ∷ is) s) s) o
          → FlushesFrames s (i ∷ is) o
      frames none h = h
      frames (some (panic, t)) h = h
      frames (some (err e, t)) h = h
      frames (some (ok u, t)) h = (
        h.0,
        h.1,
        All-sort_by_page (λ j. (t.frames j).dirty ≡ false) (i ∷ is) s
            (All-runs_of (λ j. (t.frames j).dirty ≡ false) (sort_by_page disk (i ∷ is) s) s h.2),
      )
