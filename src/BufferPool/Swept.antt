-- ===== src/BufferPool/Swept.antt =====
-- What a flush leaves of the frames: some are clean that were dirty, and nothing else has changed.
use frostfire.Prelude.{ℕ, ◌+◌, ◌≤◌, ◌≡◌, refl, ◌∙◌, ap, false, arith, List, [], ◌∷◌, some}
use frostfire.Storage.{Disk, StorageManager}
use frostfire.BufferPool.Defs.{BufferPool}
use frostfire.BufferPool.Runs.{Row}

module _ {disk : Disk} where
  -- Frames have only become clean.
  pub record Swept (s t : BufferPool disk) : Type 0 where
    pub table : t.table ≡ s.table
    pub pages : (j : ℕ) → (t.frames j).page_id ≡ (s.frames j).page_id
    pub pins : (j : ℕ) → (t.frames j).pin_count ≡ (s.frames j).pin_count
    pub cleaner : (j : ℕ) → (s.frames j).dirty ≡ false → (t.frames j).dirty ≡ false
    pub size : t.sm.file_size ≡ s.sm.file_size

  pub Swept-refl :
      (s : BufferPool disk) (sm' : StorageManager disk)
      → sm'.file_size ≡ s.sm.file_size
      → Swept s (record s { sm = sm' })
  Swept-refl s sm' size = record {
    table = refl;
    pages = λ j. refl;
    pins = λ j. refl;
    cleaner = λ j clean. clean;
    size = size;
  }

  pub Swept-trans : {s t u : BufferPool disk} → Swept s t → Swept t u → Swept s u
  Swept-trans p q = record {
    table = q.table ∙ p.table;
    pages = λ j. q.pages j ∙ p.pages j;
    pins = λ j. q.pins j ∙ p.pins j;
    cleaner = λ j clean. q.cleaner j (p.cleaner j clean);
    size = q.size ∙ p.size;
  }

  -- The frames of the pages from `least` on are as dirty as before.
  abbrev pub Beyond : ℕ → BufferPool disk → BufferPool disk → Type 0
  Beyond least s t =
      (id j : ℕ) → s.table id ≡ some j → least ≤ id → (t.frames j).dirty ≡ (s.frames j).dirty

  pub Row-Swept :
      (least : ℕ) (s t : BufferPool disk)
      → Swept s t
      → Beyond least s t
      → (start : ℕ) (run : List ℕ) → least ≤ start
      → Row s start run
      → Row t start run
  Row-Swept least s t sw same start [] le row = tt
  Row-Swept least s t sw same start (i ∷ is) le (at, dirty, row) =
      let here : t.table (t.frames i).page_id ≡ some i =
        ap (λ f. f (t.frames i).page_id) sw.table ∙ ap s.table (sw.pages i) ∙ dirty.0 in
      (
        sw.pages i ∙ at,
        (here, same (s.frames i).page_id i dirty.0 (omega (arith, at)) ∙ dirty.1),
        Row-Swept least s t sw same (start + 1) is (omega arith) row,
      )
