-- ===== src/BufferPool/Sweeps.antt =====
-- One run of a flush: its pages are written, and its frames are clean.
use frostfire.Prelude.{
  ℕ, suc, ◌+◌, ◌*◌, ◌≤◌, ◌<◌, ◌≡◌, inl, inr, ◌⊎◌, refl, sym, ◌∙◌, ap, subst, false, arith, List, [],
  ◌∷◌, length, map, All, if◌then◌else◌, Option, none, some, Result, ok, err, panic, dec_lt,
}
use frostfire.Bytes.{Bytes, page_size}
use frostfire.Storage.{Disk, StorageManager}
use frostfire.Storage.Pages.{DiskLaws, Inside, stored}
use frostfire.Storage.Vectored.{whole_pages, write_pages_contiguous}
use frostfire.Storage.Batches.{
  VectorLaws, NeverInside, InRow, Stores, write_pages_contiguous-Stores,
}
use frostfire.BufferPool.Defs.{Frame, BufferPool, set_frame}
use frostfire.BufferPool.Flush.{clean_run, write_run}
use frostfire.BufferPool.Whole.{WholeRun}
use frostfire.BufferPool.Coherence.{
  AtRest, by_frame, update-same, update-other, set_frame-IsCoherent,
}
use frostfire.BufferPool.Saving.{refiled-IsCoherent}
use frostfire.BufferPool.Runs.{Row, Row-dirty, Row-last}
use frostfire.BufferPool.Swept.{Swept, Swept-refl, Swept-trans, Beyond}

module _ {disk : Disk} (laws : DiskLaws disk) (page : ℕ → Bytes) (Live Settled : ℕ → Type 0) where
  -- The pages of the frames, from `start` on, are in the file.
  abbrev Ready : (ℕ → Option ℕ) → StorageManager disk → ℕ → List ℕ → Type 0
  Ready table sm start [] = Unit {0}
  Ready table sm start (i ∷ is) =
      (table start ≡ some i)
      × (Live start → stored laws sm start ≡ page start)
      × Ready table sm (start + 1) is

  abbrev Clean : BufferPool disk → ℕ → Type 0
  Clean t i = (t.frames i).dirty ≡ false

  -- What is left once the frames of a run are clean.
  abbrev Cleaned : BufferPool disk → ℕ → List ℕ → BufferPool disk → Type 0
  Cleaned s start run t =
      AtRest laws page Live Settled t
      × Swept s t
      × Beyond (start + length run) s t
      × All (λ i. (t.frames i).dirty ≡ false) run

  pub All-Swept :
      {s t : BufferPool disk} (run : List ℕ)
      → Swept s t
      → All (λ i. (s.frames i).dirty ≡ false) run
      → All (λ i. (t.frames i).dirty ≡ false) run
  All-Swept [] sw h = tt
  All-Swept (i ∷ is) sw h = (sw.cleaner i h.0, All-Swept is sw h.1)

  clean_run-Cleaned :
      (s : BufferPool disk) (start : ℕ) (run : List ℕ)
      → AtRest laws page Live Settled s
      → Ready s.table s.sm start run
      → Cleaned s start run (clean_run disk run s)
  unfolding clean_run
  clean_run-Cleaned s start [] c ready = (c, Swept-refl s s.sm refl, (λ id j e le. refl), tt)
  clean_run-Cleaned s start (i ∷ is) c (here, saved, ready) =
      subst (λ b. Cleaned s start (i ∷ is) (clean_run disk is (if b then s else u)))
        (sym (c.marked i))
        (joined (clean_run disk is u) (clean_run-Cleaned u (start + 1) is at_rest ready))
    where
      clean : Frame
      clean = record (s.frames i) { dirty = false }

      u : BufferPool disk
      u = set_frame disk s i clean

      at_rest : AtRest laws page Live Settled u
      at_rest =
          set_frame-IsCoherent laws page Live Settled (λ j. false) (λ j. false) s i clean c refl
            (c.usage i) (λ free. ((c.unpinned i free).0, refl)) (λ k live e. c.cached k i live e)
            (λ k live e cleaned.
              let same : k ≡ start = sym (c.mapped k i e) ∙ c.mapped start i here in
              subst (λ x. stored laws s.sm x ≡ page x) (sym same) (saved (subst Live same live)))
            (λ k st e. refl)
            (by_frame laws page Live Settled (λ j g. g.evicting ≡ false) s.frames i clean
              (c.marked i) (λ j ne. c.marked j))

      first : Swept s u
      first = record {
        table = refl;
        pages =
            by_frame laws page Live Settled (λ j g. g.page_id ≡ (s.frames j).page_id) s.frames i
              clean refl (λ j ne. refl);
        pins =
            by_frame laws page Live Settled (λ j g. g.pin_count ≡ (s.frames j).pin_count) s.frames i
              clean refl (λ j ne. refl);
        cleaner =
            by_frame laws page Live Settled (λ j g. (s.frames j).dirty ≡ false → g.dirty ≡ false)
              s.frames i clean (λ e. refl) (λ j ne e. e);
        size = refl;
      }

      joined : (t : BufferPool disk) → Cleaned u (start + 1) is t → Cleaned s start (i ∷ is) t
      joined t (c', sw, same, all) = (
        c',
        Swept-trans first sw,
        (λ id j e le.
            same id j e (omega (arith, le))
            ∙ ap (λ g. g.dirty)
                (update-other s.frames i j clean (λ one. absurd (
                  omega (
                    arith,
                    le,
                    sym (c.mapped id j e)
                        ∙ ap (λ x. (s.frames x).page_id) one
                        ∙ c.mapped start i here,
                  ))))),
        (sw.cleaner i (ap (λ g. g.dirty) (update-same s.frames i clean)), all),
      )

  module _ (vectors : VectorLaws laws) where
    -- How the writing of a run ends.
    abbrev pub Sweeps :
        BufferPool disk → ℕ → List ℕ → Option (Result (Unit {0}) × BufferPool disk) → Type 0
    Sweeps s start run none = ⊥
    Sweeps s start run (some (ok u, t)) =
        AtRest laws page Live Settled t
        × Swept s t
        × Beyond (start + length run) s t
        × All (λ i. (t.frames i).dirty ≡ false) run
    Sweeps s start run (some (err e, t)) =
        AtRest laws page Live Settled t × Swept s t × Beyond (start + length run) s t
    Sweeps s start run (some (panic, t)) = ⊥

    bytes_of : BufferPool disk → List ℕ → List Bytes
    bytes_of s run = map (λ j. (s.frames j).bytes) run

    length-bytes_of : (s : BufferPool disk) (run : List ℕ) → length (bytes_of s run) ≡ length run
    unfolding bytes_of
    length-bytes_of s [] = refl
    length-bytes_of s (i ∷ is) = ap suc (length-bytes_of s is)

    InRow-Ready :
        (s : BufferPool disk) (sm' : StorageManager disk) (start : ℕ) (run : List ℕ)
        → AtRest laws page Live Settled s
        → Row s start run
        → InRow laws vectors sm' start (bytes_of s run)
        → Ready s.table sm' start run
    unfolding bytes_of
    InRow-Ready s sm' start [] c row h = tt
    InRow-Ready s sm' start (i ∷ is) c (at, dirty, row) h =
        let here : s.table start ≡ some i = ap s.table (sym at) ∙ dirty.0 in
        (
          here,
          (λ live. h.0 ∙ c.cached start i live here),
          InRow-Ready s sm' (start + 1) is c row h.1,
        )

    -- The file has changed in the pages of a run, which are all in dirty frames.
    refiled_run :
        (s : BufferPool disk) (start : ℕ) (run : List ℕ) (sm' : StorageManager disk)
        → AtRest laws page Live Settled s
        → Row s start run
        → sm'.file_size ≡ s.sm.file_size
        → ((j : ℕ)
            → (j < start) ⊎ (start + length (bytes_of s run) ≤ j)
            → stored laws sm' j ≡ stored laws s.sm j)
        → AtRest laws page Live Settled (record s { sm = sm' })
    refiled_run s start run sm' c row size others =
        refiled-IsCoherent laws page Live Settled (λ j. false) s sm' c size
          (λ j clean. elim (dec_lt j start) [
            | yes low ↦ others j (inl low)
            | no up ↦ elim (dec_lt j (start + length run)) [
              | no high ↦ others j (inr (omega (arith, high, length-bytes_of s run)))
              | yes within ↦
                  let (i, here, dirty) = Row-dirty s start run j row (omega (arith, up)) within in
                  absurd (ground (arith, clean i here, dirty))
            ]
          ])

    stored-Sweeps :
        (s : BufferPool disk) (start : ℕ) (run : List ℕ)
        (o : Option (Result (Unit {0}) × StorageManager disk))
        → AtRest laws page Live Settled s
        → Row s start run
        → Stores laws vectors s.sm start (bytes_of s run) o
        → Sweeps s start run (elim o [
          | none ↦ none
          | some (ok u, sm') ↦ some (ok u, clean_run disk run (record s { sm = sm' }))
          | some (err e, sm') ↦ some (err e, record s { sm = sm' })
          | some (panic, sm') ↦ some (panic, record s { sm = sm' })
        ])
    stored-Sweeps s start run none c row h = h
    stored-Sweeps s start run (some (err e, sm')) c row (fine, in_row, size, others) =
        (refiled_run s start run sm' c row size others, Swept-refl s sm' size, λ id j at le. refl)
    stored-Sweeps s start run (some (panic, sm')) c row (fine, in_row, size, others) =
        absurd (fine refl)
    stored-Sweeps s start run (some (ok u, sm')) c row (fine, in_row, size, others) =
        let (c', sw, same, all) =
          clean_run-Cleaned (record s { sm = sm' }) start run
            (refiled_run s start run sm' c row size others)
            (InRow-Ready s sm' start run c row (in_row refl)) in
        (c', Swept-trans (Swept-refl s sm' size) sw, same, all)

    pub write_run-Sweeps :
        (fuel : ℕ) (s : BufferPool disk) (start : ℕ) (run : List ℕ)
        → AtRest laws page Live Settled s
        → s.sm.file_size < fuel * page_size
        → 0 < length run
        → Row s start run
        → WholeRun laws fuel run s
        → Sweeps s start run (write_run disk fuel run s)
    unfolding write_run bytes_of
    write_run-Sweeps fuel s start [] c enough pos row never = absurd (omega (arith, pos))
    write_run-Sweeps fuel s start (i ∷ is) c enough pos row never =
        let (last, id, e, here) = Row-last s start (i ∷ is) row pos in
        let end : Inside disk s.sm id = c.inside id last here in
        let count = length-bytes_of s (i ∷ is) in
        subst (λ x. Sweeps s start (i ∷ is) (written x)) (sym row.0)
          (stored-Sweeps s start (i ∷ is)
            (write_pages_contiguous disk fuel s.sm start (bytes_of s (i ∷ is))) c row
            (write_pages_contiguous-Stores laws vectors fuel s.sm start (bytes_of s (i ∷ is))
              (omega (arith, count, e, end, enough)) (omega (arith, count, e, end)) end.1
              (subst
                (λ x.
                  NeverInside laws fuel s.sm.file (whole_pages (bytes_of s (i ∷ is)))
                    (x * page_size))
                row.0 never)))
      where
        written : ℕ → Option (Result (Unit {0}) × BufferPool disk)
        written x =
            elim (write_pages_contiguous disk fuel s.sm x
              (map (λ j. (s.frames j).bytes) (i ∷ is))) [
                | none ↦ none
                | some (ok u, sm') ↦ some (ok u, clean_run disk (i ∷ is) (record s { sm = sm' }))
                | some (err e, sm') ↦ some (err e, record s { sm = sm' })
                | some (panic, sm') ↦ some (panic, record s { sm = sm' })
              ]
