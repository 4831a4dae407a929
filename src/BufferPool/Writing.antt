-- ===== src/BufferPool/Writing.antt =====
-- Pages that are written: GetForWrite on a coherent pool.
use frostfire.Prelude.{
  ℕ, ◌+◌, ◌≡◌, ◌≢◌, ◌⊎◌, inl, inr, refl, sym, ◌∙◌, ap, subst, true, false, ◌||◌, arith, ltb, ◌==◌,
  if◌then◌else◌, Option, none, some, Result, ok, err, panic, ℕ_discrete, ==-refl, ne→==, Bool-cases,
  invalid_write,
}
use frostfire.Bytes.{Bytes}
use frostfire.Storage.{Disk}
use frostfire.Storage.Pages.{DiskLaws, Inside}
use frostfire.BufferPool.Defs.{
  Frame, update, BufferPool, set_frame, max_usage_count, acquire_frame, get_for_write, install,
}
use frostfire.BufferPool.Coherence.{
  AtRest, by_frame, update-same, update-other, used_page, clean_saved, set_frame-IsCoherent,
}
use frostfire.BufferPool.Swap.{install-IsCoherent}
use frostfire.BufferPool.Victims.{Acquired, acquire_frame-Acquired}
use frostfire.BufferPool.Reading.{more, install-pins}

module _ {disk : Disk} (laws : DiskLaws disk) (page : ℕ → Bytes) (Live Settled : ℕ → Type 0) where
  -- The pages that are live once `id` is.
  abbrev pub Or : ℕ → ℕ → Type 0
  Or id j = Live j ⊎ (j ≡ id)

  -- A page whose frame is dirty becomes live with the bytes of the frame.
  pub publish-IsCoherent :
      (bp : BufferPool disk) (id i : ℕ) (d : Bytes)
      → AtRest laws page Live Settled bp
      → bp.table id ≡ some i
      → (bp.frames i).dirty ≡ true
      → (bp.frames i).bytes ≡ d
      → AtRest laws (update page id d) (Or id) Settled bp
  publish-IsCoherent bp id i d c here dirty bytes = record {
    some_frame = c.some_frame;
    marked = c.marked;
    usage = c.usage;
    mapped = c.mapped;
    inside = c.inside;
    owned = c.owned;
    unpinned = c.unpinned;
    cached = λ j k live e. elim (ℕ_discrete j id) [
      | yes same ↦
          ap (λ x. (bp.frames x).bytes) (one_frame j k same e)
          ∙ bytes
          ∙ subst (λ x. d ≡ update page id d x) (sym same) (sym (update-same page id d))
      | no ne ↦ c.cached j k (was j ne live) e ∙ sym (update-other page id j d ne)
    ];
    on_disk = λ j live clean. elim (ℕ_discrete j id) [
      | yes same ↦
          absurd (ground (arith, dirty, clean i (subst (λ x. bp.table x ≡ some i) (sym same) here)))
      | no ne ↦ c.on_disk j (was j ne live) clean ∙ sym (update-other page id j d ne)
    ];
    settled = c.settled;
    settled_live = λ j st. inl (c.settled_live j st);
    in_file = λ j live. elim live [
      | inl before ↦ c.in_file j before
      | inr same ↦ rw same (c.inside id i here)
    ];
  }
    where
      was : (j : ℕ) → j ≢ id → Or id j → Live j
      was j ne (inl live) = live
      was j ne (inr same) = absurd (ne same)

      one_frame : (j k : ℕ) → j ≡ id → bp.table j ≡ some k → k ≡ i
      one_frame j k same e = ground (arith, ap bp.table (sym same) ∙ e, here)

  -- The frame of a page that is not live takes any bytes.
  pub write-IsCoherent :
      (bp : BufferPool disk) (id i : ℕ) (d : Bytes)
      → AtRest laws page Live Settled bp
      → (Live id → ⊥)
      → bp.table id ≡ some i
      → (bp.frames i).dirty ≡ true
      → AtRest laws
          (update page id d)
          (Or id)
          Settled
          (set_frame disk bp i (record (bp.frames i) { bytes = d }))
  write-IsCoherent bp id i d c new here dirty =
      publish-IsCoherent (set_frame disk bp i filled) id i d
        (set_frame-IsCoherent laws page Live Settled (λ j. false) (λ j. false) bp i filled c refl
          (c.usage i) (c.unpinned i) (λ k live e. absurd (new (subst Live (one_page k e) live)))
          (λ k live. clean_saved laws page Live Settled (λ j. false) bp c k i live)
          (λ k st. c.settled k i st)
          (by_frame laws page Live Settled (λ j g. g.evicting ≡ false) bp.frames i filled
            (c.marked i) (λ j ne. c.marked j)))
        here (ap (λ g. g.dirty) (update-same bp.frames i filled) ∙ dirty)
        (ap (λ g. g.bytes) (update-same bp.frames i filled))
    where
      filled : Frame
      filled = record (bp.frames i) { bytes = d }

      one_page : (k : ℕ) → bp.table k ≡ some i → k ≡ id
      one_page k e = sym (c.mapped k i e) ∙ c.mapped id i here

  -- A page that is handed out for writing is in a dirty frame that is pinned once, and takes any
  -- bytes; after an error no pin has changed.
  abbrev pub Lends : BufferPool disk → ℕ → Option (Result ℕ × BufferPool disk) → Type 0
  Lends s id none = ⊥
  Lends s id (some (ok i, t)) =
      ((s.frames i).pin_count ≡ 0)
      × ((m : ℕ) → (t.frames m).pin_count ≡ (s.frames m).pin_count + more i m)
      × ((d : Bytes)
          → AtRest laws (update page id d) (Or id) Settled
              (set_frame disk t i (record (t.frames i) { bytes = d })))
  Lends s id (some (err e, t)) =
      AtRest laws page Live Settled t × ((m : ℕ) → (t.frames m).pin_count ≡ (s.frames m).pin_count)
  Lends s id (some (panic, t)) = ⊥

  Acquired-Lends :
      (s : BufferPool disk) (id : ℕ) (o : Option (Result ℕ × BufferPool disk))
      → (Live id → ⊥)
      → s.table id ≡ none
      → Inside disk s.sm id
      → Acquired laws page Live Settled s o
      → Lends s id (elim o [
        | none ↦ none
        | some (err e, bp1) ↦ some (err e, bp1)
        | some (panic, bp1) ↦ some (panic, bp1)
        | some (ok i, bp1) ↦
            some (ok i, install disk i id (record (bp1.frames i) { dirty = true }) bp1)
      ])
  unfolding install
  Acquired-Lends s id none new fresh inside h = h
  Acquired-Lends s id (some (err e, t)) new fresh inside (c, kept) = (c, kept.pins)
  Acquired-Lends s id (some (panic, t)) new fresh inside h = h
  Acquired-Lends s id (some (ok i, t)) new fresh inside (c, free, kept) =
      let f : Frame = record (t.frames i) { dirty = true } in
      let taken : Frame = record f {
        page_id = id;
        pin_count = 1;
        usage_count = max_usage_count;
        evicting = false;
      } in
      let c' : AtRest laws page Live Settled (install disk i id f t) =
        install-IsCoherent laws page Live Settled (λ j. j == i) t i id f c (λ j ne. ne→== j i ne)
          free (kept.missing id fresh) (rw kept.size inside) (λ live. absurd (new live))
          (λ live clean. absurd (new live)) (λ st. absurd (new (c.settled_live id st))) in
      (
        sym (kept.pins i) ∙ (c.unpinned i free).0,
        install-pins laws page Live Settled (λ j. j == i) s t i id f c free kept,
        λ d.
            write-IsCoherent (install disk i id f t) id i d c' new (update-same t.table id (some i))
              (ap (λ g. g.dirty) (update-same t.frames i taken)),
      )

  lent-Lends :
      (s : BufferPool disk) (id i : ℕ)
      → AtRest laws page Live Settled s
      → (Live id → ⊥)
      → s.table id ≡ some i
      → (s.frames i).pin_count ≡ 0
      → Lends s id (
          some (
            ok i,
            set_frame disk s i (record (s.frames i) {
              pin_count = 1;
              usage_count = max_usage_count;
              dirty = true;
            }),
          ))
  lent-Lends s id i c new here idle = (
    idle,
    by_frame laws page Live Settled (λ j g. g.pin_count ≡ (s.frames j).pin_count + more i j)
        s.frames i lent (rw (==-refl i) (omega (arith, idle)))
        (λ j ne. rw (ne→== j i ne) (omega arith)),
    λ d.
        write-IsCoherent (set_frame disk s i lent) id i d
          (set_frame-IsCoherent laws page Live Settled (λ j. false) (λ j. false) s i lent c refl
            (omega arith)
            (λ free. absurd (used_page laws page Live Settled (λ j. false) s c id i here free))
            (λ k live e. c.cached k i live e) (λ k live e clean. absurd (ground (arith, clean)))
            (λ k st e.
              absurd (
                new (subst Live (sym (c.mapped k i e) ∙ c.mapped id i here) (c.settled_live k st))))
            (by_frame laws page Live Settled (λ j g. g.evicting ≡ false) s.frames i lent
              (c.marked i) (λ j ne. c.marked j)))
          new here (ap (λ g. g.dirty) (update-same s.frames i lent)),
  )
    where
      lent : Frame
      lent = record (s.frames i) { pin_count = 1; usage_count = max_usage_count; dirty = true }

  -- In a coherent pool GetForWrite of a page of the file that is not live ends without a panic. If
  -- it gives a frame, nobody else had it pinned, and whatever is written into it makes the page live
  -- with those bytes in a coherent pool, where the other live pages keep theirs; if it gives an
  -- error, no pin has changed and the pool is coherent.
  pub get_for_write-Lends :
      (bp : BufferPool disk) (id : ℕ)
      → AtRest laws page Live Settled bp
      → (Live id → ⊥)
      → Inside disk bp.sm id
      → Lends bp id (get_for_write disk id bp)
  unfolding get_for_write
  get_for_write-Lends bp id c new inside =
      elim (bp.table id)
          as (λ o.
            bp.table id ≡ o
            → Lends bp id (elim o [
              | some i ↦
                  if (bp.frames i).evicting || ltb 0 (bp.frames i).pin_count
                  then some (err invalid_write, bp)
                  else some (
                    ok i,
                    set_frame disk bp i (record (bp.frames i) {
                      pin_count = 1;
                      usage_count = max_usage_count;
                      dirty = true;
                    }),
                  )
              | none ↦ elim (acquire_frame disk bp) [
                | none ↦ none
                | some (err e, bp1) ↦ some (err e, bp1)
                | some (panic, bp1) ↦ some (panic, bp1)
                | some (ok i, bp1) ↦
                    some (ok i, install disk i id (record (bp1.frames i) { dirty = true }) bp1)
              ]
            ])) [
              | none ↦ λ e.
                  Acquired-Lends bp id (acquire_frame disk bp) new e inside
                    (acquire_frame-Acquired laws page Live Settled bp c)
              | some i ↦ λ e.
                  elim (Bool-cases ((bp.frames i).evicting || ltb 0 (bp.frames i).pin_count)) [
                    | inl held ↦ rw held (c, λ m. refl)
                    | inr free ↦
                        rw free (lent-Lends bp id i c new e (ground (arith, free, c.marked i)))
                  ]
            ]
        refl
