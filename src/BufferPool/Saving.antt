-- ===== src/BufferPool/Saving.antt =====
-- FlushPage, MarkClean and Sync on a coherent pool.
use frostfire.Prelude.{
  ℕ, ◌≡◌, ◌≢◌, ◌⊎◌, inl, inr, refl, sym, ◌∙◌, subst, Bool, true, false, not, ◌||◌, arith,
  if◌then◌else◌, none, some, Result, ok, err, panic, Bool-cases,
}
use frostfire.Bytes.{Bytes}
use frostfire.Storage.{Disk, StorageManager}
use frostfire.Storage
use frostfire.Storage.Pages.{DiskLaws, stored, Writes, write_page-Writes, sync-Syncs}
use frostfire.BufferPool.Defs.{Frame, update, BufferPool, set_frame, flush_page, mark_clean, sync}
use frostfire.BufferPool.Coherence.{
  IsCoherent, AtRest, by_frame, update-other, clean_saved, set_frame-IsCoherent, Wrote-IsCoherent,
}

module _ {disk : Disk} (laws : DiskLaws disk) (page : ℕ → Bytes) (Live Settled : ℕ → Type 0) where
  -- Fewer pages are live.
  pub fewer-IsCoherent :
      (Live' Settled' : ℕ → Type 0) (m : ℕ → Bool) (bp : BufferPool disk)
      → ((j : ℕ) → Live' j → Live j)
      → ((j : ℕ) → Settled' j → Settled j)
      → ((j : ℕ) → Settled' j → Live' j)
      → IsCoherent laws page Live Settled m bp
      → IsCoherent laws page Live' Settled' m bp
  fewer-IsCoherent Live' Settled' m bp fewer less within c = record {
    some_frame = c.some_frame;
    marked = c.marked;
    usage = c.usage;
    mapped = c.mapped;
    inside = c.inside;
    owned = c.owned;
    unpinned = c.unpinned;
    cached = λ id i live. c.cached id i (fewer id live);
    on_disk = λ id live. c.on_disk id (fewer id live);
    settled = λ id i st. c.settled id i (less id st);
    settled_live = within;
    in_file = λ id live. c.in_file id (fewer id live);
  }

  -- A page that is not live may be dropped.
  pub mark_clean-IsCoherent :
      (bp : BufferPool disk) (id : ℕ)
      → AtRest laws page Live Settled bp
      → (Live id → ⊥)
      → AtRest laws page Live Settled (mark_clean disk id bp)
  unfolding mark_clean
  mark_clean-IsCoherent bp id c dead =
      elim (bp.table id)
          as (λ o.
            bp.table id ≡ o
            → AtRest laws page Live Settled (elim o [
              | none ↦ bp
              | some i ↦ set_frame disk bp i (record (bp.frames i) { dirty = false })
            ])) [
              | none ↦ λ e. c
              | some i ↦ λ e.
                  let clean : Frame = record (bp.frames i) { dirty = false } in
                  set_frame-IsCoherent laws page Live Settled (λ j. false) (λ j. false) bp i clean c
                    refl (c.usage i) (λ free. ((c.unpinned i free).0, refl))
                    (λ k live e'. c.cached k i live e')
                    (λ k live e'.
                      absurd (dead (subst Live (sym (c.mapped k i e') ∙ c.mapped id i e) live)))
                    (λ k st e'. refl)
                    (by_frame laws page Live Settled (λ j g. g.evicting ≡ false) bp.frames i clean
                      (c.marked i) (λ j ne. c.marked j))
            ]
        refl

  -- What a write-back of one page leaves: its bytes in the file, or an error.
  abbrev pub Saves : BufferPool disk → ℕ → Result (Unit {0}) × BufferPool disk → Type 0
  Saves s id (ok u, t) =
      AtRest laws page Live Settled t
      × ((m : ℕ) → (t.frames m).pin_count ≡ (s.frames m).pin_count)
      × (Live id → stored laws t.sm id ≡ page id)
  Saves s id (err e, t) =
      AtRest laws page Live Settled t × ((m : ℕ) → (t.frames m).pin_count ≡ (s.frames m).pin_count)
  Saves s id (panic, t) = ⊥

  written-Saves :
      (s : BufferPool disk) (id i : ℕ) (w : Result (Unit {0}) × StorageManager disk)
      → AtRest laws page Live Settled s
      → s.table id ≡ some i
      → (s.frames i).dirty ≡ true
      → Writes laws s.sm id (s.frames i).bytes w
      → Saves s id (elim (w.0) [
        | ok u ↦ (
          ok tt,
          record s {
            sm = w.1;
            frames = update s.frames i (
                if (s.frames i).evicting
                then s.frames i
                else record (s.frames i) { dirty = false });
          },
        )
        | err e ↦ (err e, record s { sm = w.1 })
        | panic ↦ (panic, record s { sm = w.1 })
      ])
  written-Saves s id i (ok u, sm') c here dirty (w, saved) =
      let c' =
        Wrote-IsCoherent laws page Live Settled (λ j. false) s id i (s.frames i).bytes sm' c here
          dirty w in
      let clean : Frame = record (s.frames i) { dirty = false } in
      let on_disk : Live id → stored laws sm' id ≡ page id =
        λ live. saved ∙ c.cached id i live here in
      rw (c.marked i) (
        set_frame-IsCoherent laws page Live Settled (λ j. false) (λ j. false)
            (record s { sm = sm' }) i (record clean { evicting = false }) c' refl (c.usage i)
            (λ free. ((c.unpinned i free).0, refl)) (λ k live e. c.cached k i live e)
            (λ k live e cleaned.
              let same : k ≡ id = sym (c.mapped k i e) ∙ c.mapped id i here in
              subst (λ x. stored laws sm' x ≡ page x) (sym same) (on_disk (subst Live same live)))
            (λ k st e. refl)
            (by_frame laws page Live Settled (λ j g. g.evicting ≡ false) s.frames i
              (record clean { evicting = false }) refl (λ j ne. c.marked j)),
        by_frame laws page Live Settled (λ j g. g.pin_count ≡ (s.frames j).pin_count) s.frames i
            (record clean { evicting = false }) refl (λ j ne. refl),
        on_disk,
      )
  written-Saves s id i (err e, sm') c here dirty w = (
    Wrote-IsCoherent laws page Live Settled (λ j. false) s id i (s.frames i).bytes sm' c here dirty
        w,
    λ m. refl,
  )
  written-Saves s id i (panic, sm') c here dirty w = absurd w

  -- In a coherent pool FlushPage ends without a panic. If it succeeds, the file holds the page's
  -- bytes if the page is live, whether it was cached or not, dirty or clean; if it fails, no live page
  -- is lost. Either way the pool is coherent and every pin is as it was.
  pub flush_page-Saves :
      (bp : BufferPool disk) (id : ℕ)
      → AtRest laws page Live Settled bp
      → Saves bp id (flush_page disk id bp)
  unfolding flush_page
  flush_page-Saves bp id c =
      elim (bp.table id)
          as (λ o.
            bp.table id ≡ o
            → Saves bp id (elim o [
              | none ↦ (ok tt, bp)
              | some i ↦
                  let frame = bp.frames i in
                  if frame.evicting || not frame.dirty
                  then (ok tt, bp)
                  else (let (r, sm') = Storage.write_page disk bp.sm id frame.bytes in
                      elim r [
                        | ok u ↦ (
                          ok tt,
                          record bp {
                            sm = sm';
                            frames =
                                update bp.frames i (
                                  if frame.evicting then frame else record frame { dirty = false });
                          },
                        )
                        | err e ↦ (err e, record bp { sm = sm' })
                        | panic ↦ (panic, record bp { sm = sm' })
                      ])
            ])) [
              | none ↦ λ e. (
                c,
                (λ m. refl),
                λ live. c.on_disk id live (λ j e'. absurd (ground (arith, e, e'))),
              )
              | some i ↦ λ e.
                  elim (Bool-cases ((bp.frames i).evicting || not (bp.frames i).dirty)) [
                    | inl clean ↦ rw clean (
                      c,
                      (λ m. refl),
                      λ live.
                          clean_saved laws page Live Settled (λ j. false) bp c id i live e
                            (ground (arith, clean, c.marked i)),
                    )
                    | inr dirty ↦ rw dirty (
                        written-Saves bp id i (Storage.write_page disk bp.sm id (bp.frames i).bytes)
                          c e (ground (arith, dirty, c.marked i))
                          (write_page-Writes laws bp.sm id (bp.frames i).bytes (c.inside id i e)))
                  ]
            ]
        refl

  -- The page of a settled page is in the file.
  pub settled_saved :
      (m : ℕ → Bool) (bp : BufferPool disk)
      → IsCoherent laws page Live Settled m bp
      → (id : ℕ) → Settled id
      → stored laws bp.sm id ≡ page id
  settled_saved m bp c id st = c.on_disk id (c.settled_live id st) (λ i e. c.settled id i st e)

  -- Another file with the same pages, except those in dirty frames.
  pub refiled-IsCoherent :
      (m : ℕ → Bool) (bp : BufferPool disk) (sm' : StorageManager disk)
      → IsCoherent laws page Live Settled m bp
      → sm'.file_size ≡ bp.sm.file_size
      → ((j : ℕ)
          → ((i : ℕ) → bp.table j ≡ some i → (bp.frames i).dirty ≡ false)
          → stored laws sm' j ≡ stored laws bp.sm j)
      → IsCoherent laws page Live Settled m (record bp { sm = sm' })
  refiled-IsCoherent m bp sm' c size same = record {
    some_frame = c.some_frame;
    marked = c.marked;
    usage = c.usage;
    mapped = c.mapped;
    inside = λ j k e. rw size (c.inside j k e);
    owned = c.owned;
    unpinned = c.unpinned;
    cached = c.cached;
    on_disk = λ j live clean. same j clean ∙ c.on_disk j live clean;
    settled = c.settled;
    settled_live = c.settled_live;
    in_file = λ j live. rw size (c.in_file j live);
  }

  -- Sync keeps the pool.
  pub sync-IsCoherent :
      (bp : BufferPool disk)
      → AtRest laws page Live Settled bp
      → let (r, t) = sync disk bp in
        (r ≢ panic)
        × AtRest laws page Live Settled t
        × (t.frames ≡ bp.frames)
        × ((j : ℕ) → stored laws t.sm j ≡ stored laws bp.sm j)
  unfolding sync
  sync-IsCoherent bp c =
      let (done, size, same) = sync-Syncs laws bp.sm in
      (
        done,
        refiled-IsCoherent (λ j. false) bp (Storage.sync disk bp.sm).1 c size (λ j clean. same j),
        refl,
        same,
      )

  -- What holds of a page that has just been written holds without it.
  pub before-IsCoherent :
      (m : ℕ → Bool) (bp : BufferPool disk) (id : ℕ) (d : Bytes)
      → (Live id → ⊥)
      → ((j : ℕ) → Settled j → Live j)
      → IsCoherent laws (update page id d) (λ j. Live j ⊎ (j ≡ id)) Settled m bp
      → IsCoherent laws page Live Settled m bp
  before-IsCoherent m bp id d new within c = record {
    some_frame = c.some_frame;
    marked = c.marked;
    usage = c.usage;
    mapped = c.mapped;
    inside = c.inside;
    owned = c.owned;
    unpinned = c.unpinned;
    cached = λ j i live e. c.cached j i (inl live) e ∙ same j live;
    on_disk = λ j live clean. c.on_disk j (inl live) clean ∙ same j live;
    settled = c.settled;
    settled_live = within;
    in_file = λ j live. c.in_file j (inl live);
  }
    where
      same : (j : ℕ) → Live j → update page id d j ≡ page j
      same j live = update-other page id j d (λ e. new (subst Live e live))
