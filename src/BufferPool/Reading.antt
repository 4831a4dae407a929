-- ===== src/BufferPool/Reading.antt =====
-- Get and Unpin on a coherent pool.
use frostfire.Prelude.{
  ℕ, ◌+◌, ◌-◌, ◌<◌, ◌≡◌, refl, sym, ◌∙◌, ap, Bool, false, arith, ◌==◌, if◌then◌else◌, Option, none,
  some, Result, ok, err, panic, ==-refl, ne→==,
}
use frostfire.Bytes.{Bytes}
use frostfire.Storage.{Disk}
use frostfire.Storage
use frostfire.Storage.Pages.{DiskLaws, Inside, stored, Reads, read_page-Reads}
use frostfire.BufferPool.Defs.{
  Frame, BufferPool, set_frame, free_page_id, max_usage_count, acquire_frame, unpin, get,
  load_and_install, install, release_to_free,
}
use frostfire.BufferPool.Coherence.{
  IsCoherent, AtRest, by_frame, update-same, used_page, clean_saved, set_frame-IsCoherent,
}
use frostfire.BufferPool.Swap.{install-IsCoherent}
use frostfire.BufferPool.Victims.{Kept, Acquired, acquire_frame-Acquired}

-- The pins after one more pin of frame `i`.
abbrev pub more : ℕ → ℕ → ℕ
more i m = if m == i then 1 else 0

module _ {disk : Disk} (laws : DiskLaws disk) (page : ℕ → Bytes) (Live Settled : ℕ → Type 0) where
  -- A page that is handed out is in its frame with its bytes, and pinned once more; after an error
  -- no pin has changed.
  abbrev pub Hands : BufferPool disk → ℕ → Option (Result ℕ × BufferPool disk) → Type 0
  Hands s id none = ⊥
  Hands s id (some (ok i, t)) =
      AtRest laws page Live Settled t
      × (t.table id ≡ some i)
      × (Live id → (t.frames i).bytes ≡ page id)
      × ((m : ℕ) → (t.frames m).pin_count ≡ (s.frames m).pin_count + more i m)
  Hands s id (some (err e, t)) =
      AtRest laws page Live Settled t × ((m : ℕ) → (t.frames m).pin_count ≡ (s.frames m).pin_count)
  Hands s id (some (panic, t)) = ⊥

  -- A free frame that is installed is pinned once.
  pub install-pins :
      (m : ℕ → Bool) (s t : BufferPool disk) (i id : ℕ) (f : Frame)
      → IsCoherent laws page Live Settled m t
      → (t.frames i).page_id ≡ free_page_id
      → Kept laws page Live Settled s t
      → (j : ℕ) → ((install disk i id f t).frames j).pin_count ≡ (s.frames j).pin_count + more i j
  unfolding install
  install-pins m s t i id f c free kept =
      by_frame laws page Live Settled (λ j g. g.pin_count ≡ (s.frames j).pin_count + more i j)
        t.frames i
        (record f { page_id = id; pin_count = 1; usage_count = max_usage_count; evicting = false })
        (rw (==-refl i) (omega (arith, kept.pins i, (c.unpinned i free).0)))
        (λ j ne. rw (ne→== j i ne) (omega (arith, kept.pins j)))

  loaded-Hands :
      (s t : BufferPool disk) (id i : ℕ) (r : Result Bytes)
      → s.table id ≡ none
      → Inside disk t.sm id
      → Acquired laws page Live Settled s (some (ok i, t))
      → Reads laws t.sm id r
      → Hands s id (elim r [
        | ok buf ↦ some (ok i, install disk i id (record (t.frames i) { bytes = buf }) t)
        | err e ↦ some (err e, release_to_free disk i t)
        | panic ↦ some (panic, t)
      ])
  unfolding install release_to_free
  loaded-Hands s t id i (ok buf) fresh inside (c, free, kept) read =
      let f : Frame = record (t.frames i) { bytes = buf } in
      let missing : t.table id ≡ none = kept.missing id fresh in
      let saved : Live id → stored laws t.sm id ≡ page id =
        λ live. c.on_disk id live (λ j e. absurd (ground (arith, e, missing))) in
      (
        install-IsCoherent laws page Live Settled (λ j. j == i) t i id f c (λ j ne. ne→== j i ne)
            free missing inside (λ live. read ∙ saved live) (λ live clean. saved live)
            (λ st. (c.unpinned i free).1),
        update-same t.table id (some i),
        λ live.
            ap (λ g. g.bytes)
              (update-same t.frames i (record f {
                page_id = id;
                pin_count = 1;
                usage_count = max_usage_count;
                evicting = false;
              }))
            ∙ read
            ∙ saved live,
        install-pins (λ j. j == i) s t i id f c free kept,
      )
  loaded-Hands s t id i (err e) fresh inside (c, free, kept) read = (
    set_frame-IsCoherent laws page Live Settled (λ j. j == i) (λ j. false) t i blank c (sym free)
        (omega arith) (λ e'. (refl, refl))
        (λ k live e'. absurd (used_page laws page Live Settled (λ j. j == i) t c k i e' free))
        (λ k live e' clean. absurd (used_page laws page Live Settled (λ j. j == i) t c k i e' free))
        (λ k st e'. refl)
        (by_frame laws page Live Settled (λ j g. g.evicting ≡ false) t.frames i blank refl
          (λ j ne. c.marked j ∙ ne→== j i ne)),
    by_frame laws page Live Settled (λ j g. g.pin_count ≡ (s.frames j).pin_count) t.frames i blank
        (sym (c.unpinned i free).0 ∙ kept.pins i) (λ j ne. kept.pins j),
  )
    where
      blank : Frame
      blank = record (t.frames i) {
        page_id = free_page_id;
        pin_count = 0;
        usage_count = 0;
        dirty = false;
        evicting = false;
      }
  loaded-Hands s t id i panic fresh inside acquired read = absurd read

  load_and_install-Hands :
      (bp : BufferPool disk) (id : ℕ)
      → AtRest laws page Live Settled bp
      → Inside disk bp.sm id
      → bp.table id ≡ none
      → Hands bp id (load_and_install disk id bp)
  unfolding load_and_install
  load_and_install-Hands bp id c inside fresh =
      loaded (acquire_frame disk bp) (acquire_frame-Acquired laws page Live Settled bp c)
    where
      loaded :
          (o : Option (Result ℕ × BufferPool disk))
          → Acquired laws page Live Settled bp o
          → Hands bp id (elim o [
            | none ↦ none
            | some (err e, bp1) ↦ some (err e, bp1)
            | some (panic, bp1) ↦ some (panic, bp1)
            | some (ok i, bp1) ↦ elim (Storage.read_page disk bp1.sm id) [
              | ok buf ↦ some (ok i, install disk i id (record (bp1.frames i) { bytes = buf }) bp1)
              | err e ↦ some (err e, release_to_free disk i bp1)
              | panic ↦ some (panic, bp1)
            ]
          ])
      loaded none h = h
      loaded (some (err e, t)) (c, kept) = (c, kept.pins)
      loaded (some (panic, t)) h = h
      loaded (some (ok i, t)) (c, free, kept) =
          let still : Inside disk t.sm id = rw kept.size inside in
          loaded-Hands bp t id i (Storage.read_page disk t.sm id) fresh still (c, free, kept)
            (read_page-Reads laws t.sm id still)

  -- One more pin on the frame of a page.
  pinned-Hands :
      (bp : BufferPool disk) (id i : ℕ)
      → AtRest laws page Live Settled bp
      → bp.table id ≡ some i
      → Hands bp id (
          some (
            ok i,
            set_frame disk bp i (record (bp.frames i) {
              pin_count = (bp.frames i).pin_count + 1;
              usage_count = max_usage_count;
            }),
          ))
  pinned-Hands bp id i c here = (
    set_frame-IsCoherent laws page Live Settled (λ j. false) (λ j. false) bp i held c refl
        (omega arith)
        (λ free. absurd (used_page laws page Live Settled (λ j. false) bp c id i here free))
        (λ k live e. c.cached k i live e)
        (λ k live. clean_saved laws page Live Settled (λ j. false) bp c k i live)
        (λ k st. c.settled k i st)
        (by_frame laws page Live Settled (λ j g. g.evicting ≡ false) bp.frames i held (c.marked i)
          (λ j ne. c.marked j)),
    here,
    λ live. ap (λ g. g.bytes) (update-same bp.frames i held) ∙ c.cached id i live here,
    by_frame laws page Live Settled (λ j g. g.pin_count ≡ (bp.frames j).pin_count + more i j)
        bp.frames i held (rw (==-refl i) refl) (λ j ne. rw (ne→== j i ne) (omega arith)),
  )
    where
      held : Frame
      held = record (bp.frames i) {
        pin_count = (bp.frames i).pin_count + 1;
        usage_count = max_usage_count;
      }

  -- In a coherent pool Get of a page of the file, cached or not, gives a frame that holds the page
  -- with its bytes if the page is live, and that is pinned once more, or it gives an error and
  -- changes no pin. It never panics, it ends, and the pool stays coherent, so the other live pages
  -- keep their bytes whatever was evicted.
  pub get-Hands :
      (bp : BufferPool disk) (id : ℕ)
      → AtRest laws page Live Settled bp
      → Inside disk bp.sm id
      → Hands bp id (get disk id bp)
  unfolding get
  get-Hands bp id c inside =
      elim (bp.table id)
          as (λ o.
            bp.table id ≡ o
            → Hands bp id (elim o [
              | some i ↦ some (
                ok i,
                set_frame disk bp i (record (bp.frames i) {
                  pin_count = (bp.frames i).pin_count + 1;
                  usage_count = max_usage_count;
                }),
              )
              | none ↦ load_and_install disk id bp
            ])) [
              | none ↦ λ e. load_and_install-Hands bp id c inside e
              | some i ↦ λ e. pinned-Hands bp id i c e
            ]
        refl

  -- Unpin of a pinned frame takes one pin from it, and the pool stays coherent.
  pub unpin-IsCoherent :
      (i : ℕ) (bp : BufferPool disk)
      → AtRest laws page Live Settled bp
      → 0 < (bp.frames i).pin_count
      → let (r, t) = unpin disk i bp in
        (r ≡ ok tt)
        × AtRest laws page Live Settled t
        × ((m : ℕ) → (t.frames m).pin_count ≡ (bp.frames m).pin_count - more i m)
  unfolding unpin
  unpin-IsCoherent i bp c held = rw (ne→== (bp.frames i).pin_count 0 (omega arith)) (
    refl,
    set_frame-IsCoherent laws page Live Settled (λ j. false) (λ j. false) bp i less c refl
        (c.usage i) (λ free. absurd (omega (arith, (c.unpinned i free).0)))
        (λ k live e. c.cached k i live e)
        (λ k live. clean_saved laws page Live Settled (λ j. false) bp c k i live)
        (λ k st. c.settled k i st)
        (by_frame laws page Live Settled (λ j g. g.evicting ≡ false) bp.frames i less (c.marked i)
          (λ j ne. c.marked j)),
    by_frame laws page Live Settled (λ j g. g.pin_count ≡ (bp.frames j).pin_count - more i j)
        bp.frames i less (rw (==-refl i) refl) (λ j ne. rw (ne→== j i ne) (omega arith)),
  )
    where
      less : Frame
      less = record (bp.frames i) { pin_count = (bp.frames i).pin_count - 1 }
