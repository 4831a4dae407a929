-- ===== src/BufferPool/Victims.antt =====
-- acquireFrame on a coherent pool: a dirty victim is on disk before its frame is used again.
use frostfire.Prelude.{
  ℕ, ◌≡◌, refl, sym, ◌∙◌, ◌⊎◌, inl, inr, ap, subst, true, false, arith, ltb, ◌==◌, Option, none,
  some, Result, ok, err, panic, ℕ_discrete, ==-refl, ne→==, Bool-cases,
}
use frostfire.Bytes.{Bytes}
use frostfire.Storage.{Disk, StorageManager}
use frostfire.Storage
use frostfire.Storage.Pages.{DiskLaws, stored, Writes, write_page-Writes}
use frostfire.BufferPool.Defs.{
  Frame, update, BufferPool, free_page_id, write_back, take_over, claim_victim, acquire_loop,
  acquire_frame,
}
use frostfire.BufferPool.Clock.{Ran, Chosen, evict_frame_total}
use frostfire.BufferPool.Coherence.{
  IsCoherent, AtRest, by_frame, update-same, clean_saved, Ran-IsCoherent, set_frame-IsCoherent,
  Wrote-IsCoherent,
}
use frostfire.BufferPool.Swap.{vacated-IsCoherent}

module _ {disk : Disk} (laws : DiskLaws disk) (page : ℕ → Bytes) (Live Settled : ℕ → Type 0) where
  -- No pin has changed, no page has been cached, and the file is as long as before.
  pub record Kept (s t : BufferPool disk) : Type 0 where
    pub pins : (j : ℕ) → (t.frames j).pin_count ≡ (s.frames j).pin_count
    pub missing : (id : ℕ) → s.table id ≡ none → t.table id ≡ none
    pub size : t.sm.file_size ≡ s.sm.file_size

  Kept-trans : {s t u : BufferPool disk} → Kept s t → Kept t u → Kept s u
  Kept-trans p q = record {
    pins = λ j. q.pins j ∙ p.pins j;
    missing = λ id e. q.missing id (p.missing id e);
    size = q.size ∙ p.size;
  }

  Ran-Kept : {s t : BufferPool disk} → Ran disk s t → Kept s t
  Ran-Kept ran = record {
    pins = λ j. (ran.aged j).pin_count;
    missing = λ id e. subst (λ t. t id ≡ none) (sym ran.table) e;
    size = ap (λ x. x.file_size) ran.sm;
  }

  -- After the write-back the page of frame `i` is on disk, or the frame is given back.
  abbrev WrittenBack : ℕ → BufferPool disk → Result (Unit {0}) × BufferPool disk → Type 0
  WrittenBack i s (ok u, t) =
      IsCoherent laws page Live Settled (λ j. j == i) t
      × Kept s t
      × (t.frames ≡ s.frames)
      × (t.table ≡ s.table)
      × (Live (s.frames i).page_id
          → stored laws t.sm (s.frames i).page_id ≡ page (s.frames i).page_id)
  WrittenBack i s (err e, t) = AtRest laws page Live Settled t × Kept s t
  WrittenBack i s (panic, t) = ⊥

  write_back-WrittenBack :
      (i : ℕ) (bp : BufferPool disk)
      → IsCoherent laws page Live Settled (λ j. j == i) bp
      → bp.table (bp.frames i).page_id ≡ some i
      → WrittenBack i bp (write_back disk i bp)
  unfolding write_back
  write_back-WrittenBack i bp c here = elim (Bool-cases (bp.frames i).dirty) [
    | inr clean ↦ rw clean (
      c,
      record { pins = λ j. refl; missing = λ id e. e; size = refl },
      refl,
      refl,
      λ live. clean_saved laws page Live Settled (λ j. j == i) bp c id i live here clean,
    )
    | inl dirty ↦ rw dirty (
        written dirty (Storage.write_page disk bp.sm id (bp.frames i).bytes)
          (write_page-Writes laws bp.sm id (bp.frames i).bytes (c.inside id i here)))
  ]
    where
      id : ℕ
      id = (bp.frames i).page_id

      written :
          (bp.frames i).dirty ≡ true
          → (w : Result (Unit {0}) × StorageManager disk)
          → Writes laws bp.sm id (bp.frames i).bytes w
          → WrittenBack i bp (elim (w.0) [
            | ok u ↦ (ok u, record bp { sm = w.1 })
            | err e ↦ (
              err e,
              record bp {
                sm = w.1;
                frames = update bp.frames i (record (bp.frames i) { evicting = false });
              },
            )
            | panic ↦ (panic, record bp { sm = w.1 })
          ])
      written dirty (ok u, sm') (w, saved) = (
        Wrote-IsCoherent laws page Live Settled (λ j. j == i) bp id i (bp.frames i).bytes sm' c here
            dirty w,
        record { pins = λ j. refl; missing = λ k e. e; size = w.size },
        refl,
        refl,
        λ live. saved ∙ c.cached id i live here,
      )
      written dirty (err e, sm') w =
          let c' =
            Wrote-IsCoherent laws page Live Settled (λ j. j == i) bp id i (bp.frames i).bytes sm' c
              here dirty w in
          let back : Frame = record (bp.frames i) { evicting = false } in
          (
            set_frame-IsCoherent laws page Live Settled (λ j. j == i) (λ j. false)
                (record bp { sm = sm' }) i back c' refl (c.usage i) (c.unpinned i)
                (λ k live e'. c.cached k i live e')
                (λ k live e' clean. absurd (ground (arith, dirty, clean)))
                (λ k st e'. c.settled k i st e')
                (by_frame laws page Live Settled (λ j g. g.evicting ≡ false) bp.frames i back refl
                  (λ j ne. c.marked j ∙ ne→== j i ne)),
            record {
              pins =
                  by_frame laws page Live Settled (λ j g. g.pin_count ≡ (bp.frames j).pin_count)
                    bp.frames i back refl (λ j ne. refl);
              missing = λ k e'. e';
              size = w.size;
            },
          )
      written dirty (panic, sm') w = absurd w

  -- A frame that was acquired is free, and it alone is marked.
  abbrev pub Acquired : BufferPool disk → Option (Result ℕ × BufferPool disk) → Type 0
  Acquired s none = ⊥
  Acquired s (some (ok i, t)) =
      IsCoherent laws page Live Settled (λ j. j == i) t
      × ((t.frames i).page_id ≡ free_page_id)
      × Kept s t
  Acquired s (some (err e, t)) = AtRest laws page Live Settled t × Kept s t
  Acquired s (some (panic, t)) = ⊥

  -- The victim of the clock is always taken: nothing pins it meanwhile.
  abbrev Claimed : BufferPool disk → Option (Result ℕ) × BufferPool disk → Type 0
  Claimed s (none, t) = ⊥
  Claimed s (some r, t) = Acquired s (some (r, t))

  taken-Claimed :
      (i : ℕ) (bp bp1 : BufferPool disk)
      → (bp.frames i).pin_count ≡ 0
      → bp.table (bp.frames i).page_id ≡ some i
      → WrittenBack i bp (ok tt, bp1)
      → Claimed bp (
          let (taken, bp2) = take_over disk i ((bp.frames i).page_id) bp1 in
          elim taken [ some bp3 ↦ (some (ok i), bp3) | none ↦ (none, bp2) ])
  unfolding take_over
  taken-Claimed i bp bp1 unpinned here (c, kept, frames, table, saved) =
      let idle : (bp1.frames i).pin_count ≡ 0 = ap (λ f. (f i).pin_count) frames ∙ unpinned in
      let gone : Frame = record (bp1.frames i) { page_id = free_page_id; dirty = false } in
      let free : ltb 0 (bp1.frames i).pin_count ≡ false = ap (λ n. ltb 0 n) idle in
      rw free (
        vacated-IsCoherent laws page Live Settled (λ j. j == i) bp1 i ((bp.frames i).page_id) c
            (subst (λ t. t (bp.frames i).page_id ≡ some i) (sym table) here) idle saved,
        ap (λ g. g.page_id) (update-same bp1.frames i gone),
        record {
          pins =
              by_frame laws page Live Settled (λ j g. g.pin_count ≡ (bp.frames j).pin_count)
                bp1.frames i gone (kept.pins i) (λ j ne. kept.pins j);
          missing = λ k e. ground (arith, kept.missing k e);
          size = kept.size;
        },
      )

  claim_victim-Claimed :
      (i : ℕ) (bp : BufferPool disk)
      → IsCoherent laws page Live Settled (λ j. j == i) bp
      → ((bp.frames i).page_id ≡ free_page_id) ⊎ ((bp.frames i).pin_count ≡ 0)
      → Claimed bp (claim_victim disk i bp)
  unfolding claim_victim
  claim_victim-Claimed i bp c idle = elim (ℕ_discrete (bp.frames i).page_id free_page_id) [
    | yes free ↦
        let test : ((bp.frames i).page_id == free_page_id) ≡ true =
          ap (λ n. n == free_page_id) free ∙ ==-refl free_page_id in
        rw test (c, free, record { pins = λ j. refl; missing = λ id e. e; size = refl })
    | no used ↦ rw (ne→== (bp.frames i).page_id free_page_id used) (
        claimed (write_back disk i bp) (write_back-WrittenBack i bp c (c.owned i used))
          (elim idle [ inl free ↦ absurd (used free) | inr e ↦ e ]) (c.owned i used))
  ]
    where
      claimed :
          (w : Result (Unit {0}) × BufferPool disk)
          → WrittenBack i bp w
          → (bp.frames i).pin_count ≡ 0
          → bp.table (bp.frames i).page_id ≡ some i
          → Claimed bp (elim (w.0) [
            | err e ↦ (some (err e), w.1)
            | panic ↦ (some panic, w.1)
            | ok u ↦
                let (taken, bp2) = take_over disk i ((bp.frames i).page_id) w.1 in
                elim taken [ some bp3 ↦ (some (ok i), bp3) | none ↦ (none, bp2) ]
          ])
      claimed (ok u, bp1) h unpinned here = taken-Claimed i bp bp1 unpinned here h
      claimed (err e, bp1) h unpinned here = h
      claimed (panic, bp1) h unpinned here = absurd h

  Claimed-after :
      (s t : BufferPool disk) (fuel : ℕ) (w : Option (Result ℕ) × BufferPool disk)
      → Kept s t
      → Claimed t w
      → Acquired s
          (elim (w.0) [ some result ↦ some (result, w.1) | none ↦ acquire_loop disk fuel w.1 ])
  Claimed-after s t fuel (none, u) kept h = absurd h
  Claimed-after s t fuel (some (ok i), u) kept h = (h.0, h.1, Kept-trans kept h.2)
  Claimed-after s t fuel (some (err e), u) kept h = (h.0, Kept-trans kept h.1)
  Claimed-after s t fuel (some panic, u) kept h = absurd h

  -- In a coherent pool acquireFrame ends after one victim: with a free frame or an error.
  pub acquire_frame-Acquired :
      (bp : BufferPool disk)
      → AtRest laws page Live Settled bp
      → Acquired bp (acquire_frame disk bp)
  unfolding acquire_frame acquire_loop
  acquire_frame-Acquired bp c =
      let (r, after, e, ran, chosen) =
        evict_frame_total disk bp (record { some_frame = c.some_frame; idle = c.marked }) c.usage in
      subst (λ o. Acquired bp (next o)) (sym e) (claimed r after ran chosen)
    where
      next : Option (Result ℕ × BufferPool disk) → Option (Result ℕ × BufferPool disk)
      next o = elim o [
        | none ↦ none
        | some (err e, bp1) ↦ some (err e, bp1)
        | some (panic, bp1) ↦ some (panic, bp1)
        | some (ok i, bp1) ↦
            let (r, bp2) = claim_victim disk i bp1 in
            elim r [ some result ↦ some (result, bp2) | none ↦ acquire_loop disk 0 bp2 ]
      ]

      claimed :
          (r : Result ℕ) (after : BufferPool disk)
          → Ran disk bp after
          → Chosen disk bp r after
          → Acquired bp (next (some (r, after)))
      claimed (err e) after ran chosen = (
        Ran-IsCoherent laws page Live Settled (λ j. false) (λ j. false) bp after c ran chosen.1,
        Ran-Kept ran,
      )
      claimed panic after ran chosen = absurd chosen
      claimed (ok i) after ran chosen =
          Claimed-after bp after 0 (claim_victim disk i after) (Ran-Kept ran) (
            claim_victim-Claimed i after
              (Ran-IsCoherent laws page Live Settled (λ j. false) (λ j. j == i) bp after c ran
                chosen.2)
              (idle chosen.1 (ran.aged i).page_id (ran.aged i).pin_count))
        where
          idle :
              ((bp.frames i).page_id ≡ free_page_id) ⊎ ((bp.frames i).pin_count ≡ 0)
              → (after.frames i).page_id ≡ (bp.frames i).page_id
              → (after.frames i).pin_count ≡ (bp.frames i).pin_count
              → ((after.frames i).page_id ≡ free_page_id) ⊎ ((after.frames i).pin_count ≡ 0)
          idle (inl free) same pins = inl (same ∙ free)
          idle (inr unpinned) same pins = inr (pins ∙ unpinned)
