-- ===== src/BufferPool/Swap.antt =====
-- A frame gives up its page, and takes another one (acquireFrame, loadAndInstall, GetForWrite).
use frostfire.Prelude.{
  ℕ, ◌≤◌, ◌≡◌, ◌≢◌, refl, sym, ◌∙◌, ap, subst, Bool, false, arith, none, some, ℕ_discrete,
}
use frostfire.Bytes.{Bytes}
use frostfire.Storage.{Disk}
use frostfire.Storage.Pages.{DiskLaws, Inside, stored}
use frostfire.BufferPool.Defs.{Frame, update, BufferPool, free_page_id, max_usage_count, install}
use frostfire.BufferPool.Coherence.{
  IsBlank, IsCoherent, AtRest, by_frame, used_page, update-same, update-other,
}

some_injective : {x y : ℕ} → some x ≡ some y → x ≡ y
some_injective e = ground (arith, e)

module _ {disk : Disk} (laws : DiskLaws disk) (page : ℕ → Bytes) (Live Settled : ℕ → Type 0) where
  -- An unpinned frame whose page is on disk gives it up.
  pub vacated-IsCoherent :
      (m : ℕ → Bool) (bp : BufferPool disk) (i id : ℕ)
      → IsCoherent laws page Live Settled m bp
      → bp.table id ≡ some i
      → (bp.frames i).pin_count ≡ 0
      → (Live id → stored laws bp.sm id ≡ page id)
      → IsCoherent laws page Live Settled m (record bp {
        frames =
            update bp.frames i (record (bp.frames i) { page_id = free_page_id; dirty = false });
        table = update bp.table id none;
      })
  vacated-IsCoherent m bp i id c here unpinned saved = record {
    some_frame = c.some_frame;
    marked =
        by_frame laws page Live Settled (λ j g. g.evicting ≡ m j) bp.frames i free (c.marked i)
          (λ j ne. c.marked j);
    usage =
        by_frame laws page Live Settled (λ j g. g.usage_count ≤ max_usage_count) bp.frames i free
          (c.usage i) (λ j ne. c.usage j);
    mapped = λ k j e.
        ap (λ g. g.page_id) (update-other bp.frames i j free (apart k j e))
        ∙ c.mapped k j (still k j e);
    inside = λ k j e. c.inside k j (still k j e);
    owned =
        by_frame laws page Live Settled
          (λ j g. g.page_id ≢ free_page_id → update bp.table id none g.page_id ≡ some j) bp.frames i
          free (λ used. absurd (used refl))
          (λ j ne used.
            update-other bp.table id (bp.frames j).page_id none
              (λ e. ne (one_frame j (subst (λ k. bp.table k ≡ some j) e (c.owned j used))))
            ∙ c.owned j used);
    unpinned =
        by_frame laws page Live Settled (λ j g. g.page_id ≡ free_page_id → IsBlank g) bp.frames i
          free (λ e. (unpinned, refl)) (λ j ne. c.unpinned j);
    cached = λ k j live e.
        ap (λ g. g.bytes) (update-other bp.frames i j free (apart k j e))
        ∙ c.cached k j live (still k j e);
    on_disk = λ k live clean. elim (ℕ_discrete k id) [
      | yes e ↦ rw e (saved (subst Live e live))
      | no ne ↦ c.on_disk k live (λ j e.
          let e' : update bp.table id none k ≡ some j = update-other bp.table id k none ne ∙ e in
          ap (λ g. g.dirty) (sym (update-other bp.frames i j free (apart k j e'))) ∙ clean j e')
    ];
    settled = λ k j st e.
        ap (λ g. g.dirty) (update-other bp.frames i j free (apart k j e))
        ∙ c.settled k j st (still k j e);
    settled_live = c.settled_live;
    in_file = c.in_file;
  }
    where
      free : Frame
      free = record (bp.frames i) { page_id = free_page_id; dirty = false }

      one_frame : (j : ℕ) → bp.table id ≡ some j → j ≡ i
      one_frame j e = ground (arith, e, here)

      other : (k j : ℕ) → update bp.table id none k ≡ some j → k ≢ id
      other k j e same = absurd (ground (arith, same, e))

      still : (k j : ℕ) → update bp.table id none k ≡ some j → bp.table k ≡ some j
      still k j e = sym (update-other bp.table id k none (other k j e)) ∙ e

      apart : (k j : ℕ) → update bp.table id none k ≡ some j → j ≢ i
      apart k j e same = other k j e (
          sym (c.mapped k j (still k j e))
          ∙ ap (λ x. (bp.frames x).page_id) same
          ∙ c.mapped id i here)

  -- A free frame takes a page of the file that is not cached.
  pub install-IsCoherent :
      (m : ℕ → Bool) (bp : BufferPool disk) (i id : ℕ) (f : Frame)
      → IsCoherent laws page Live Settled m bp
      → ((j : ℕ) → j ≢ i → m j ≡ false)
      → (bp.frames i).page_id ≡ free_page_id
      → bp.table id ≡ none
      → Inside disk bp.sm id
      → (Live id → f.bytes ≡ page id)
      → (Live id → f.dirty ≡ false → stored laws bp.sm id ≡ page id)
      → (Settled id → f.dirty ≡ false)
      → AtRest laws page Live Settled (install disk i id f bp)
  unfolding install
  install-IsCoherent m bp i id f c one free fresh inside bytes clean calm = record {
    some_frame = c.some_frame;
    marked =
        by_frame laws page Live Settled (λ j g. g.evicting ≡ false) bp.frames i taken refl
          (λ j ne. c.marked j ∙ one j ne);
    usage =
        by_frame laws page Live Settled (λ j g. g.usage_count ≤ max_usage_count) bp.frames i taken
          (omega arith) (λ j ne. c.usage j);
    mapped = λ k j e. elim (ℕ_discrete k id) [
      | yes same ↦ ap (λ g. g.page_id) (at_new j k same e) ∙ sym same
      | no ne ↦ ap (λ g. g.page_id) (at_old j k ne e) ∙ c.mapped k j (still k j ne e)
    ];
    inside = λ k j e. elim (ℕ_discrete k id) [
      | yes same ↦ rw same inside
      | no ne ↦ c.inside k j (still k j ne e)
    ];
    owned =
        by_frame laws page Live Settled
          (λ j g. g.page_id ≢ free_page_id → update bp.table id (some i) g.page_id ≡ some j)
          bp.frames i taken (λ used. update-same bp.table id (some i))
          (λ j ne used.
            update-other bp.table id (bp.frames j).page_id (some i)
              (λ e. unmapped j (subst (λ k. bp.table k ≡ some j) e (c.owned j used)))
            ∙ c.owned j used);
    unpinned =
        by_frame laws page Live Settled (λ j g. g.page_id ≡ free_page_id → IsBlank g) bp.frames i
          taken (λ e. absurd (omega (arith, inside, e))) (λ j ne. c.unpinned j);
    cached = λ k j live e. elim (ℕ_discrete k id) [
      | yes same ↦
          ap (λ g. g.bytes) (at_new j k same e) ∙ bytes (subst Live same live) ∙ ap page (sym same)
      | no ne ↦ ap (λ g. g.bytes) (at_old j k ne e) ∙ c.cached k j live (still k j ne e)
    ];
    on_disk = λ k live all_clean. elim (ℕ_discrete k id) [
      | yes same ↦ rw same (
          clean (subst Live same live) (
            ap (λ g. g.dirty) (sym (update-same bp.frames i taken))
            ∙ all_clean i
                (ap (update bp.table id (some i)) same ∙ update-same bp.table id (some i))))
      | no ne ↦ c.on_disk k live (λ j e.
          let e' : update bp.table id (some i) k ≡ some j =
            update-other bp.table id k (some i) ne ∙ e in
          ap (λ g. g.dirty) (sym (at_old j k ne e')) ∙ all_clean j e')
    ];
    settled = λ k j st e. elim (ℕ_discrete k id) [
      | yes same ↦ ap (λ g. g.dirty) (at_new j k same e) ∙ calm (subst Settled same st)
      | no ne ↦ ap (λ g. g.dirty) (at_old j k ne e) ∙ c.settled k j st (still k j ne e)
    ];
    settled_live = c.settled_live;
    in_file = c.in_file;
  }
    where
      taken : Frame
      taken = record f {
        page_id = id;
        pin_count = 1;
        usage_count = max_usage_count;
        evicting = false;
      }

      unmapped : (j : ℕ) → bp.table id ≢ some j
      unmapped j e = absurd (ground (arith, e, fresh))

      still : (k j : ℕ) → k ≢ id → update bp.table id (some i) k ≡ some j → bp.table k ≡ some j
      still k j ne e = sym (update-other bp.table id k (some i) ne) ∙ e

      at_old :
          (j k : ℕ)
          → k ≢ id
          → update bp.table id (some i) k ≡ some j
          → update bp.frames i taken j ≡ bp.frames j
      at_old j k ne e = update-other bp.frames i j taken (λ same.
          used_page laws page Live Settled m bp c k j (still k j ne e)
            (ap (λ x. (bp.frames x).page_id) same ∙ free))

      at_new :
          (j k : ℕ)
          → k ≡ id
          → update bp.table id (some i) k ≡ some j
          → update bp.frames i taken j ≡ taken
      at_new j k same e =
          subst (λ x. update bp.frames i taken x ≡ taken)
            (some_injective (
              sym (update-same bp.table id (some i))
              ∙ ap (update bp.table id (some i)) (sym same)
              ∙ e))
            (update-same bp.frames i taken)
