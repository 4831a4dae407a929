-- ===== src/BufferPool/Runs.antt =====
-- The runs of a flush: consecutive pages in dirty frames, one run above the other.
use frostfire.Prelude.{
  ℕ, ◌+◌, ◌-◌, ◌%◌, ◌^◌, ◌≤◌, ◌<◌, ◌≡◌, inl, inr, refl, sym, ◌∙◌, ap, subst, true, arith, ◌==◌,
  List, [], ◌∷◌, length, some, Bool-cases, ==→eq, ℕ_discrete,
}
use frostfire.Storage.{Disk}
use frostfire.BufferPool.Defs.{BufferPool}
use frostfire.BufferPool.Flush.{join_run, runs_of}
use frostfire.BufferPool.Sorting.{DirtyPage, Rising}

module _ {disk : Disk} where
  -- The frames of the pages from `start` on, all dirty.
  abbrev pub Row : BufferPool disk → ℕ → List ℕ → Type 0
  Row bp start [] = Unit {0}
  Row bp start (i ∷ is) = ((bp.frames i).page_id ≡ start) × DirtyPage bp i × Row bp (start + 1) is

  -- Runs in the order of their pages, from page `least` on, none of them empty.
  abbrev pub Todo : BufferPool disk → ℕ → List (List ℕ) → Type 0
  Todo bp least [] = Unit {0}
  Todo bp least (run ∷ runs) =
      (start : ℕ) × (least ≤ start)
      × (0 < length run)
      × Row bp start run
      × Todo bp (start + length run) runs

  -- A page number and its successor fit in 64 bits.
  abbrev Bounded : BufferPool disk → Type 0
  Bounded bp = (i : ℕ) → DirtyPage bp i → (bp.frames i).page_id + 1 < 2 ^ 64

  Todo-join_run :
      (bp : BufferPool disk) (least i : ℕ) (runs : List (List ℕ))
      → Bounded bp
      → least ≤ (bp.frames i).page_id
      → DirtyPage bp i
      → Todo bp ((bp.frames i).page_id + 1) runs
      → Todo bp least (join_run disk i runs bp)
  unfolding join_run
  Todo-join_run bp least i [] bounded low dirty todo =
      ((bp.frames i).page_id, low, omega arith, (refl, dirty, tt), tt)
  Todo-join_run bp least i ([] ∷ runs) bounded low dirty (start, le, pos, row, rest) =
      absurd (omega (arith, pos))
  Todo-join_run bp least i ((j ∷ js) ∷ runs) bounded low dirty (start, le, pos, row, rest) =
      elim (Bool-cases ((bp.frames j).page_id == ((bp.frames i).page_id + 1) % 2 ^ 64)) [
        | inl next ↦
            let e : start ≡ (bp.frames i).page_id + 1 =
              sym row.0 ∙ ==→eq _ _ next ∙ (omega (arith, bounded i dirty)) in
            rw next (
              (bp.frames i).page_id,
              low,
              omega arith,
              (refl, dirty, subst (λ x. Row bp x (j ∷ js)) e row),
              subst (λ x. Todo bp x runs) (omega (arith, e)) rest,
            )
        | inr apart ↦ rw apart (
          (bp.frames i).page_id,
          low,
          omega arith,
          (refl, dirty, tt),
          (start, le, pos, row, rest),
        )
      ]

  pub Todo-runs_of :
      (bp : BufferPool disk) (least : ℕ) (is : List ℕ)
      → Bounded bp
      → Rising bp least is
      → Todo bp least (runs_of disk is bp)
  unfolding runs_of
  Todo-runs_of bp least [] bounded h = tt
  Todo-runs_of bp least (i ∷ is) bounded (low, dirty, rest) =
      Todo-join_run bp least i (runs_of disk is bp) bounded low dirty
        (Todo-runs_of bp ((bp.frames i).page_id + 1) is bounded rest)

  -- A page of the run is in a dirty frame.
  pub Row-dirty :
      (bp : BufferPool disk) (start : ℕ) (run : List ℕ) (id : ℕ)
      → Row bp start run
      → start ≤ id
      → id < start + length run
      → (i : ℕ) × (bp.table id ≡ some i) × ((bp.frames i).dirty ≡ true)
  Row-dirty bp start [] id row low high = absurd (omega arith)
  Row-dirty bp start (i ∷ is) id (at, dirty, row) low high = elim (ℕ_discrete id start) [
    | yes e ↦ (i, ap bp.table (e ∙ sym at) ∙ dirty.0, dirty.1)
    | no ne ↦ Row-dirty bp (start + 1) is id row (omega (arith, ne)) (omega arith)
  ]

  -- The last page of a run that is not empty.
  pub Row-last :
      (bp : BufferPool disk) (start : ℕ) (run : List ℕ)
      → Row bp start run
      → 0 < length run
      → (i : ℕ) × (id : ℕ) × (id + 1 ≡ start + length run) × (bp.table id ≡ some i)
  Row-last bp start run row pos =
      let (i, here, dirty) =
        Row-dirty bp start run (start + length run - 1) row (omega arith) (omega arith) in
      (i, start + length run - 1, omega arith, here)

  -- Another pool in which the frames from page `least` on are the same.
  pub Todo-kept :
      (s t : BufferPool disk) (least : ℕ) (runs : List (List ℕ))
      → ((start : ℕ) (run : List ℕ) → least ≤ start → Row s start run → Row t start run)
      → Todo s least runs
      → Todo t least runs
  Todo-kept s t least [] kept h = tt
  Todo-kept s t least (run ∷ runs) kept (start, le, pos, row, rest) = (
    start,
    le,
    pos,
    kept start run le row,
    Todo-kept s t (start + length run) runs (λ at r le'. kept at r (omega arith)) rest,
  )
