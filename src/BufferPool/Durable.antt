-- ===== src/BufferPool/Durable.antt =====
-- FlushPages: what is in the file when it ends.
use frostfire.Prelude.{
  ℕ, ◌*◌, ◌<◌, ◌≡◌, ◌≢◌, inl, inr, refl, sym, ◌∙◌, ap, subst, Bool, false, arith, List, [], ◌∷◌,
  All, if◌then◌else◌, Option, none, some, Result, ok, err, panic, Bool-cases,
}
use frostfire.Bytes.{Bytes, page_size}
use frostfire.Storage.{Disk}
use frostfire.Storage.Pages.{DiskLaws, stored}
use frostfire.Storage.Batches.{VectorLaws}
use frostfire.BufferPool.Defs.{BufferPool}
use frostfire.BufferPool.Flush.{is_dirty, dirty_of, flush_dirty, flush_pages}
use frostfire.BufferPool.Coherence.{AtRest}
use frostfire.BufferPool.Sorting.{Different, Without}
use frostfire.BufferPool.Whole.{WholeFlush}
use frostfire.BufferPool.Swept.{Swept}
use frostfire.BufferPool.Flushing.{FlushesFrames, flush_dirty-FlushesFrames}

-- No page stands twice.
abbrev pub Distinct : List ℕ → Type 0
Distinct [] = Unit {0}
Distinct (id ∷ ids) = All (λ x. x ≢ id) ids × Distinct ids

module _ {disk : Disk} (laws : DiskLaws disk) (vectors : VectorLaws laws) (page : ℕ → Bytes)
    (Live Settled : ℕ → Type 0) where
  Without-dirty_of :
      (s : BufferPool disk) (id : ℕ) (ids : List ℕ)
      → AtRest laws page Live Settled s
      → All (λ x. x ≢ id) ids
      → Without s id (dirty_of disk ids s)
  unfolding dirty_of
  Without-dirty_of s id [] c h = tt
  Without-dirty_of s id (x ∷ ids) c h =
      let rest : Without s id (dirty_of disk ids s) = Without-dirty_of s id ids c h.1 in
      elim (s.table x)
          as (λ o.
            s.table x ≡ o
            → Without s id (elim o [
              | none ↦ dirty_of disk ids s
              | some i ↦
                  if is_dirty disk (s.frames i)
                  then i ∷ dirty_of disk ids s
                  else dirty_of disk ids s
            ])) [
              | none ↦ λ e. rest
              | some i ↦ λ e. elim (Bool-cases (is_dirty disk (s.frames i))) [
                | inl dirty ↦ rw dirty ((λ same. h.0 (sym (c.mapped x i e) ∙ same)), rest)
                | inr clean ↦ rw clean rest
              ]
            ]
        refl

  Different-dirty_of :
      (s : BufferPool disk) (ids : List ℕ)
      → AtRest laws page Live Settled s
      → Distinct ids
      → Different s (dirty_of disk ids s)
  unfolding dirty_of
  Different-dirty_of s [] c h = tt
  Different-dirty_of s (x ∷ ids) c h =
      elim (s.table x)
          as (λ o.
            s.table x ≡ o
            → Different s (elim o [
              | none ↦ dirty_of disk ids s
              | some i ↦
                  if is_dirty disk (s.frames i)
                  then i ∷ dirty_of disk ids s
                  else dirty_of disk ids s
            ])) [
              | none ↦ λ e. Different-dirty_of s ids c h.1
              | some i ↦ λ e. elim (Bool-cases (is_dirty disk (s.frames i))) [
                | inl dirty ↦ rw dirty (
                  (ap s.table (c.mapped x i e) ∙ e, ground (arith, dirty, c.marked i)),
                  subst (λ y. Without s y (dirty_of disk ids s)) (sym (c.mapped x i e))
                      (Without-dirty_of s x ids c h.0),
                  Different-dirty_of s ids c h.1,
                )
                | inr clean ↦ rw clean (Different-dirty_of s ids c h.1)
              ]
            ]
        refl

  -- A page is in the file if it is live, and its frame is clean.
  abbrev pub IsSaved : BufferPool disk → ℕ → Type 0
  IsSaved t id =
      (Live id → stored laws t.sm id ≡ page id)
      × ((i : ℕ) → t.table id ≡ some i → (t.frames i).dirty ≡ false)

  -- Where all frames that were to be written are clean, the pages are in the file.
  dirty_of-IsSaved :
      (s t : BufferPool disk) (ids : List ℕ)
      → AtRest laws page Live Settled s
      → AtRest laws page Live Settled t
      → Swept s t
      → All (λ i. (t.frames i).dirty ≡ false) (dirty_of disk ids s)
      → All (IsSaved t) ids
  unfolding dirty_of
  dirty_of-IsSaved s t [] c c' sw h = tt
  dirty_of-IsSaved s t (x ∷ ids) c c' sw h =
      elim (s.table x)
          as (λ o.
            s.table x ≡ o
            → All (λ i. (t.frames i).dirty ≡ false)
                (elim o [
                  | none ↦ dirty_of disk ids s
                  | some i ↦
                      if is_dirty disk (s.frames i)
                      then i ∷ dirty_of disk ids s
                      else dirty_of disk ids s
                ])
            → All (IsSaved t) (x ∷ ids)) [
              | none ↦ λ e all. (
                is_saved x (λ j e'. absurd (ground (arith, e, sym (ap (λ f. f x) sw.table) ∙ e'))),
                dirty_of-IsSaved s t ids c c' sw all,
              )
              | some i ↦ λ e all.
                  let here : t.table x ≡ some i = ap (λ f. f x) sw.table ∙ e in
                  elim (Bool-cases (is_dirty disk (s.frames i))) [
                    | inl dirty ↦
                        let all' : All (λ j. (t.frames j).dirty ≡ false) (i ∷ dirty_of disk ids s) =
                          subst
                            (λ b.
                              All (λ j. (t.frames j).dirty ≡ false)
                                (if b then i ∷ dirty_of disk ids s else dirty_of disk ids s))
                            dirty all in
                        (
                          is_saved x (λ j e'.
                              subst (λ k. (t.frames k).dirty ≡ false) (ground (arith, here, e'))
                                all'.0),
                          dirty_of-IsSaved s t ids c c' sw all'.1,
                        )
                    | inr clean ↦
                        let all' : All (λ j. (t.frames j).dirty ≡ false) (dirty_of disk ids s) =
                          subst
                            (λ b.
                              All (λ j. (t.frames j).dirty ≡ false)
                                (if b then i ∷ dirty_of disk ids s else dirty_of disk ids s))
                            clean all in
                        (
                          is_saved x (λ j e'.
                              subst (λ k. (t.frames k).dirty ≡ false) (ground (arith, here, e'))
                                (sw.cleaner i (ground (arith, clean, c.marked i)))),
                          dirty_of-IsSaved s t ids c c' sw all',
                        )
                  ]
            ]
        refl h
    where
      is_saved :
          (id : ℕ) → ((i : ℕ) → t.table id ≡ some i → (t.frames i).dirty ≡ false) → IsSaved t id
      is_saved id clean = ((λ live. c'.on_disk id live clean), clean)

  -- How FlushPages ends: every page is in the file, or there is an error.
  abbrev pub SavesAll :
      BufferPool disk → List ℕ → Option (Result (Unit {0}) × BufferPool disk) → Type 0
  SavesAll s ids none = ⊥
  SavesAll s ids (some (ok u, t)) =
      AtRest laws page Live Settled t × Swept s t × All (IsSaved t) ids
  SavesAll s ids (some (err e, t)) = AtRest laws page Live Settled t × Swept s t
  SavesAll s ids (some (panic, t)) = ⊥

  -- In a coherent pool, if no write of its runs stops inside a page, FlushPages of pages that are all
  -- different ends without a panic, with its runs written in the order of their pages, whichever of
  -- the later ones are skipped after one has failed. If it succeeds, the file holds the bytes of all of these pages that are live, and their frames
  -- are clean; if it fails, no live
  -- page is lost. Either way the pool is coherent and every pin is as it was.
  pub flush_pages-SavesAll :
      (fuel : ℕ) (under_way : ℕ → Bool) (ids : List ℕ) (s : BufferPool disk)
      → AtRest laws page Live Settled s
      → s.sm.file_size < fuel * page_size
      → Distinct ids
      → WholeFlush laws fuel under_way (dirty_of disk ids s) s
      → SavesAll s ids (flush_pages disk fuel under_way ids s)
  unfolding flush_pages
  flush_pages-SavesAll fuel under_way ids s c enough distinct never =
      all (flush_dirty disk fuel under_way (dirty_of disk ids s) s) (
        flush_dirty-FlushesFrames laws vectors page Live Settled fuel under_way
          (dirty_of disk ids s) s c enough (Different-dirty_of s ids c distinct) never)
    where
      all :
          (o : Option (Result (Unit {0}) × BufferPool disk))
          → FlushesFrames laws vectors page Live Settled s (dirty_of disk ids s) o
          → SavesAll s ids o
      all none h = h
      all (some (panic, t)) h = h
      all (some (err e, t)) (c', sw) = (c', sw)
      all (some (ok u, t)) (c', sw, clean) = (c', sw, dirty_of-IsSaved s t ids c c' sw clean)
