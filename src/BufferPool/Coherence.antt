-- ===== src/BufferPool/Coherence.antt =====
-- The pages that a pool stands for: those of its frames, and on disk those that are not cached.
use frostfire.Prelude.{
  ℕ, ◌≤◌, ◌<◌, ◌≡◌, ◌≢◌, refl, sym, ◌∙◌, ap, subst, Bool, true, false, arith, none, some,
  ℕ_discrete, ==-refl, ne→==,
}
use frostfire.Bytes.{Bytes}
use frostfire.Storage.{Disk, StorageManager}
use frostfire.Storage.Pages.{DiskLaws, Inside, stored, Wrote}
use frostfire.BufferPool.Defs.{Frame, update, BufferPool, set_frame, free_page_id, max_usage_count}
use frostfire.BufferPool.Clock.{Ran}

pub update-same {ℓ} : {A : Type ℓ} → (f : ℕ → A) (i : ℕ) (a : A) → update f i a i ≡ a
update-same f i a = rw (==-refl i) refl

pub update-other {ℓ} : {A : Type ℓ} → (f : ℕ → A) (i j : ℕ) (a : A) → j ≢ i → update f i a j ≡ f j
update-other f i j a ne = rw (ne→== j i ne) refl

-- A frame that nobody uses.
abbrev pub IsBlank : Frame → Type 0
IsBlank f = (f.pin_count ≡ 0) × (f.dirty ≡ false)

module _ {disk : Disk} (laws : DiskLaws disk) (page : ℕ → Bytes) (Live Settled : ℕ → Type 0) where
  -- The pool at rest but for the marked frames: every page that is live has the bytes of `page`, in
  -- its frame and, unless the frame is dirty, in the file. The frames of settled pages are clean.
  pub record IsCoherent (marks : ℕ → Bool) (bp : BufferPool disk) : Type 0 where
    pub some_frame : 0 < bp.n_frames
    pub marked : (i : ℕ) → (bp.frames i).evicting ≡ marks i
    pub usage : (i : ℕ) → (bp.frames i).usage_count ≤ max_usage_count
    pub mapped : (id i : ℕ) → bp.table id ≡ some i → (bp.frames i).page_id ≡ id
    pub inside : (id i : ℕ) → bp.table id ≡ some i → Inside disk bp.sm id
    pub owned :
        (i : ℕ) → (bp.frames i).page_id ≢ free_page_id → bp.table (bp.frames i).page_id ≡ some i
    pub unpinned : (i : ℕ) → (bp.frames i).page_id ≡ free_page_id → IsBlank (bp.frames i)
    pub cached : (id i : ℕ) → Live id → bp.table id ≡ some i → (bp.frames i).bytes ≡ page id
    pub on_disk :
        (id : ℕ)
        → Live id
        → ((i : ℕ) → bp.table id ≡ some i → (bp.frames i).dirty ≡ false)
        → stored laws bp.sm id ≡ page id
    pub settled : (id i : ℕ) → Settled id → bp.table id ≡ some i → (bp.frames i).dirty ≡ false
    pub settled_live : (id : ℕ) → Settled id → Live id
    pub in_file : (id : ℕ) → Live id → Inside disk bp.sm id

  -- A pool that no operation is at work on.
  abbrev pub AtRest : BufferPool disk → Type 0
  AtRest = IsCoherent (λ i. false)

  -- The clock keeps the pages.
  pub Ran-IsCoherent :
      (m m' : ℕ → Bool) (bp after : BufferPool disk)
      → IsCoherent m bp
      → Ran disk bp after
      → ((i : ℕ) → (after.frames i).evicting ≡ m' i)
      → IsCoherent m' after
  Ran-IsCoherent m m' bp after c ran marks = record {
    some_frame = subst (λ n. 0 < n) (sym ran.n_frames) c.some_frame;
    marked = marks;
    usage = λ i. omega (arith, (ran.aged i).usage_count, c.usage i);
    mapped = λ id i e. (ran.aged i).page_id ∙ c.mapped id i (before id i e);
    inside = λ id i e. subst (λ s. Inside disk s id) (sym ran.sm) (c.inside id i (before id i e));
    owned = λ i used.
        subst (λ t. t (after.frames i).page_id ≡ some i) (sym ran.table)
          (subst (λ j. bp.table j ≡ some i) (sym (ran.aged i).page_id)
            (c.owned i (λ e. used ((ran.aged i).page_id ∙ e))));
    unpinned = λ i free.
        let blank : IsBlank (bp.frames i) = c.unpinned i (sym (ran.aged i).page_id ∙ free) in
        ((ran.aged i).pin_count ∙ blank.0, (ran.aged i).dirty ∙ blank.1);
    cached = λ id i live e. (ran.aged i).bytes ∙ c.cached id i live (before id i e);
    on_disk = λ id live clean.
        ap (λ s. stored laws s id) ran.sm
        ∙ c.on_disk id live (λ i e.
          sym (ran.aged i).dirty ∙ clean i (subst (λ t. t id ≡ some i) (sym ran.table) e));
    settled = λ id i st e. (ran.aged i).dirty ∙ c.settled id i st (before id i e);
    settled_live = c.settled_live;
    in_file = λ id live. subst (λ s. Inside disk s id) (sym ran.sm) (c.in_file id live);
  }
    where
      before : (id i : ℕ) → after.table id ≡ some i → bp.table id ≡ some i
      before id i e = subst (λ t. t id ≡ some i) ran.table e

  -- A page of a file is not the mark of a free frame.
  pub used_page :
      (m : ℕ → Bool) (bp : BufferPool disk)
      → IsCoherent m bp
      → (id i : ℕ) → bp.table id ≡ some i
      → (bp.frames i).page_id ≢ free_page_id
  used_page m bp c id i e free =
      let size = c.inside id i e in
      let same = c.mapped id i e in absurd (omega (arith, size, same, free))

  -- What holds of the new frame and of every other one.
  pub by_frame :
      (P : ℕ → Frame → Type 0) (frames : ℕ → Frame) (i : ℕ) (f : Frame)
      → P i f
      → ((j : ℕ) → j ≢ i → P j (frames j))
      → (j : ℕ) → P j (update frames i f j)
  by_frame P frames i f here there j = elim (ℕ_discrete j i) [
    | yes e ↦ rw (e, ==-refl i) here
    | no ne ↦ rw (ne→== j i ne) (there j ne)
  ]

  -- A change of a frame that keeps its page.
  pub set_frame-IsCoherent :
      (m m' : ℕ → Bool) (bp : BufferPool disk) (i : ℕ) (f : Frame)
      → IsCoherent m bp
      → f.page_id ≡ (bp.frames i).page_id
      → f.usage_count ≤ max_usage_count
      → (f.page_id ≡ free_page_id → IsBlank f)
      → ((id : ℕ) → Live id → bp.table id ≡ some i → f.bytes ≡ page id)
      → ((id : ℕ)
          → Live id
          → bp.table id ≡ some i
          → f.dirty ≡ false
          → stored laws bp.sm id ≡ page id)
      → ((id : ℕ) → Settled id → bp.table id ≡ some i → f.dirty ≡ false)
      → ((j : ℕ) → (update bp.frames i f j).evicting ≡ m' j)
      → IsCoherent m' (set_frame disk bp i f)
  set_frame-IsCoherent m m' bp i f c same low idle bytes clean calm marks = record {
    some_frame = c.some_frame;
    marked = marks;
    usage = by_frame (λ j g. g.usage_count ≤ max_usage_count) bp.frames i f low (λ j ne. c.usage j);
    mapped = λ id j e. ids j ∙ c.mapped id j e;
    inside = c.inside;
    owned = λ j used.
        subst (λ k. bp.table k ≡ some j) (sym (ids j)) (c.owned j (λ e. used (ids j ∙ e)));
    unpinned =
        by_frame (λ j g. g.page_id ≡ free_page_id → IsBlank g) bp.frames i f idle
          (λ j ne. c.unpinned j);
    cached = λ id j live.
        by_frame (λ j g. bp.table id ≡ some j → g.bytes ≡ page id) bp.frames i f (bytes id live)
          (λ j ne. c.cached id j live) j;
    on_disk = λ id live all_clean. cleaned id live all_clean;
    settled = λ id j st.
        by_frame (λ j g. bp.table id ≡ some j → g.dirty ≡ false) bp.frames i f (calm id st)
          (λ j ne. c.settled id j st) j;
    settled_live = c.settled_live;
    in_file = c.in_file;
  }
    where
      ids : (j : ℕ) → (update bp.frames i f j).page_id ≡ (bp.frames j).page_id
      ids = by_frame (λ j g. g.page_id ≡ (bp.frames j).page_id) bp.frames i f same (λ j ne. refl)

      cleaned :
          (id : ℕ)
          → Live id
          → ((j : ℕ) → bp.table id ≡ some j → (update bp.frames i f j).dirty ≡ false)
          → stored laws bp.sm id ≡ page id
      cleaned id live all_clean =
          elim (bp.table id) as (λ o. bp.table id ≡ o → stored laws bp.sm id ≡ page id) [
            | none ↦ λ e. c.on_disk id live (λ j e'. absurd (ground (arith, e, e')))
            | some k ↦ λ e. elim (ℕ_discrete k i) [
              | yes here ↦ clean id live (ground (arith, e, here)) (
                  subst (λ g. g.dirty ≡ false) (update-same bp.frames i f)
                    (all_clean i (ground (arith, e, here))))
              | no ne ↦ c.on_disk id live (λ j e'.
                  subst (λ g. g.dirty ≡ false)
                    (update-other bp.frames i j f (λ same. ne (ground (arith, e, e', same))))
                    (all_clean j e'))
            ]
          ]
            refl

  -- A write of a page that is cached and dirty, complete or torn.
  pub Wrote-IsCoherent :
      (m : ℕ → Bool) (bp : BufferPool disk) (id i : ℕ) (b : Bytes) (sm' : StorageManager disk)
      → IsCoherent m bp
      → bp.table id ≡ some i
      → (bp.frames i).dirty ≡ true
      → Wrote laws bp.sm id b sm'
      → IsCoherent m (record bp { sm = sm' })
  Wrote-IsCoherent m bp id i b sm' c here dirty w = record {
    some_frame = c.some_frame;
    marked = c.marked;
    usage = c.usage;
    mapped = c.mapped;
    inside = λ j k e. grown j (c.inside j k e);
    owned = c.owned;
    unpinned = c.unpinned;
    cached = c.cached;
    on_disk = λ j live clean. elim (ℕ_discrete j id) [
      | yes e ↦
          absurd (ground (arith, dirty, clean i (subst (λ k. bp.table k ≡ some i) (sym e) here)))
      | no ne ↦ w.others j ne ∙ c.on_disk j live clean
    ];
    settled = c.settled;
    settled_live = c.settled_live;
    in_file = λ j live. grown j (c.in_file j live);
  }
    where
      grown : (j : ℕ) → Inside disk bp.sm j → Inside disk sm' j
      grown j h = rw w.size h

  -- The page of a clean frame is on disk.
  pub clean_saved :
      (m : ℕ → Bool) (bp : BufferPool disk)
      → IsCoherent m bp
      → (id i : ℕ) → Live id
      → bp.table id ≡ some i
      → (bp.frames i).dirty ≡ false
      → stored laws bp.sm id ≡ page id
  clean_saved m bp c id i live here clean =
      c.on_disk id live
        (λ j e. subst (λ x. (bp.frames x).dirty ≡ false) (ground (arith, e, here)) clean)
