-- ===== src/BufferPool/Sorting.antt =====
-- The dirty frames of a flush, sorted by page and split into runs of consecutive pages.
use frostfire.Prelude.{
  ℕ, ◌+◌, ◌%◌, ◌^◌, ◌≤◌, ◌≡◌, ◌≢◌, inl, inr, subst, Bool, true, false, arith, leb, ◌==◌, List, [],
  ◌∷◌, All, if◌then◌else◌, some, Bool-cases,
}
use frostfire.Storage.{Disk}
use frostfire.BufferPool.Defs.{BufferPool}
use frostfire.BufferPool.Flush.{insert_by_page, sort_by_page, join_run, runs_of}

-- A property of every frame of every run.
abbrev pub AllRuns : (ℕ → Type 0) → List (List ℕ) → Type 0
AllRuns P [] = Unit {0}
AllRuns P (run ∷ runs) = All P run × AllRuns P runs

module _ {disk : Disk} where
  All-insert_by_page :
      (P : ℕ → Type 0) (i : ℕ) (js : List ℕ) (bp : BufferPool disk)
      → All P (insert_by_page disk i js bp)
      → P i × All P js
  unfolding insert_by_page
  All-insert_by_page P i [] bp h = h
  All-insert_by_page P i (j ∷ js) bp h =
      elim (Bool-cases (leb (bp.frames i).page_id (bp.frames j).page_id)) [
        | inl le ↦
            (subst (λ b. All P (if b then i ∷ j ∷ js else j ∷ insert_by_page disk i js bp)) le h)
        | inr gt ↦
            let h' : P j × All P (insert_by_page disk i js bp) =
              subst (λ b. All P (if b then i ∷ j ∷ js else j ∷ insert_by_page disk i js bp)) gt h in
            let rest = All-insert_by_page P i js bp h'.1 in (rest.0, (h'.0, rest.1))
      ]

  -- Sorting loses no frame.
  pub All-sort_by_page :
      (P : ℕ → Type 0) (is : List ℕ) (bp : BufferPool disk)
      → All P (sort_by_page disk is bp)
      → All P is
  unfolding sort_by_page
  All-sort_by_page P [] bp h = tt
  All-sort_by_page P (i ∷ is) bp h =
      let r = All-insert_by_page P i (sort_by_page disk is bp) bp h in
      (r.0, All-sort_by_page P is bp r.1)

  AllRuns-join_run :
      (P : ℕ → Type 0) (i : ℕ) (runs : List (List ℕ)) (bp : BufferPool disk)
      → AllRuns P (join_run disk i runs bp)
      → P i × AllRuns P runs
  unfolding join_run
  AllRuns-join_run P i [] bp h = (h.0.0, tt)
  AllRuns-join_run P i ([] ∷ runs) bp h = (h.0.0, (tt, h.1))
  AllRuns-join_run P i ((j ∷ js) ∷ runs) bp h =
      split ((bp.frames j).page_id == ((bp.frames i).page_id + 1) % 2 ^ 64) h
    where
      split :
          (b : Bool)
          → AllRuns P (if b then (i ∷ j ∷ js) ∷ runs else (i ∷ []) ∷ (j ∷ js) ∷ runs)
          → P i × AllRuns P ((j ∷ js) ∷ runs)
      split true h = (h.0.0, (h.0.1, h.1))
      split false h = (h.0.0, h.1)

  -- The runs hold every frame.
  pub All-runs_of :
      (P : ℕ → Type 0) (is : List ℕ) (bp : BufferPool disk)
      → AllRuns P (runs_of disk is bp)
      → All P is
  unfolding runs_of
  All-runs_of P [] bp h = tt
  All-runs_of P (i ∷ is) bp h =
      let r = AllRuns-join_run P i (runs_of disk is bp) bp h in (r.0, All-runs_of P is bp r.1)

  -- A frame that is dirty, with its page in the page table.
  abbrev pub DirtyPage : BufferPool disk → ℕ → Type 0
  DirtyPage bp i = (bp.table (bp.frames i).page_id ≡ some i) × ((bp.frames i).dirty ≡ true)

  -- Dirty frames in the order of their pages, from page `least` on.
  abbrev pub Rising : BufferPool disk → ℕ → List ℕ → Type 0
  Rising bp least [] = Unit {0}
  Rising bp least (i ∷ is) =
      (least ≤ (bp.frames i).page_id) × DirtyPage bp i × Rising bp ((bp.frames i).page_id + 1) is

  -- No frame is that of page `id`.
  abbrev pub Without : BufferPool disk → ℕ → List ℕ → Type 0
  Without bp id is = All (λ j. (bp.frames j).page_id ≢ id) is

  Without-insert_by_page :
      (bp : BufferPool disk) (id i : ℕ) (js : List ℕ)
      → (bp.frames i).page_id ≢ id
      → Without bp id js
      → Without bp id (insert_by_page disk i js bp)
  unfolding insert_by_page
  Without-insert_by_page bp id i [] ne h = (ne, tt)
  Without-insert_by_page bp id i (j ∷ js) ne h =
      split (leb (bp.frames i).page_id (bp.frames j).page_id)
        (Without-insert_by_page bp id i js ne h.1)
    where
      split :
          (b : Bool)
          → Without bp id (insert_by_page disk i js bp)
          → Without bp id (if b then i ∷ j ∷ js else j ∷ insert_by_page disk i js bp)
      split true rest = (ne, h)
      split false rest = (h.0, rest)

  Rising-insert_by_page :
      (bp : BufferPool disk) (least i : ℕ) (js : List ℕ)
      → least ≤ (bp.frames i).page_id
      → DirtyPage bp i
      → Without bp (bp.frames i).page_id js
      → Rising bp least js
      → Rising bp least (insert_by_page disk i js bp)
  unfolding insert_by_page
  Rising-insert_by_page bp least i [] low dirty other h = (low, dirty, tt)
  Rising-insert_by_page bp least i (j ∷ js) low dirty other h =
      elim (Bool-cases (leb (bp.frames i).page_id (bp.frames j).page_id)) [
        | inl le ↦ rw le (low, dirty, (above le other.0, h.1, h.2))
        | inr gt ↦ rw gt (
          h.0,
          h.1,
          Rising-insert_by_page bp ((bp.frames j).page_id + 1) i js (below gt) dirty other.1 h.2,
        )
      ]
    where
      above :
          leb (bp.frames i).page_id (bp.frames j).page_id ≡ true
          → (bp.frames j).page_id ≢ (bp.frames i).page_id
          → (bp.frames i).page_id + 1 ≤ (bp.frames j).page_id
      above le ne = ground (arith, le, ne)

      below :
          leb (bp.frames i).page_id (bp.frames j).page_id ≡ false
          → (bp.frames j).page_id + 1 ≤ (bp.frames i).page_id
      below gt = ground (arith, gt)

  -- Dirty frames of pages that all differ.
  abbrev pub Different : BufferPool disk → List ℕ → Type 0
  Different bp [] = Unit {0}
  Different bp (i ∷ is) = DirtyPage bp i × Without bp (bp.frames i).page_id is × Different bp is

  Without-sort_by_page :
      (bp : BufferPool disk) (id : ℕ) (is : List ℕ)
      → Without bp id is
      → Without bp id (sort_by_page disk is bp)
  unfolding sort_by_page
  Without-sort_by_page bp id [] h = tt
  Without-sort_by_page bp id (i ∷ is) h =
      Without-insert_by_page bp id i (sort_by_page disk is bp) h.0
        (Without-sort_by_page bp id is h.1)

  -- Sorting puts them in order.
  pub Rising-sort_by_page :
      (bp : BufferPool disk) (is : List ℕ) → Different bp is → Rising bp 0 (sort_by_page disk is bp)
  unfolding sort_by_page
  Rising-sort_by_page bp [] h = tt
  Rising-sort_by_page bp (i ∷ is) h =
      Rising-insert_by_page bp 0 i (sort_by_page disk is bp) (omega arith) h.0
        (Without-sort_by_page bp (bp.frames i).page_id is h.1) (Rising-sort_by_page bp is h.2)
