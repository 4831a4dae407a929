-- ===== src/BufferPool/Defs.antt =====
-- The frames, the page table, and the operations of bufferpool.go.
use frostfire.Prelude.{
  ℕ, zero, suc, ◌+◌, ◌-◌, ◌*◌, ◌%◌, ◌^◌, Bool, true, false, not, ◌||◌, ltb, ◌==◌, if◌then◌else◌,
  Option, none, some, Result, ok, err, panic, buffer_exhausted, invalid_write,
}
use frostfire.Bytes.{Bytes}
use frostfire.Storage.{Disk, StorageManager}
use frostfire.Storage

abbrev pub max_usage_count : ℕ
max_usage_count = 5

-- `PageId(^uint64(0))`
abbrev pub free_page_id : ℕ
free_page_id = 2 ^ 64 - 1

-- The struct Page, without its mutex.
pub record Frame : Type 0 where
  pub page_id : ℕ
  pub bytes : Bytes
  pub pin_count : ℕ
  pub usage_count : ℕ
  pub dirty : Bool
  pub evicting : Bool

abbrev pub update {ℓ} : {A : Type ℓ} → (ℕ → A) → ℕ → A → ℕ → A
update f i a = λ j. if j == i then a else f j

-- Rounds that suffice for `n` frames, by `evict_frame_total`.
abbrev pub evict_fuel : ℕ → ℕ
evict_fuel n = suc (max_usage_count * n * suc n + n)

module _ (disk : Disk) where
  pub record BufferPool : Type 0 where
    pub frames : ℕ → Frame
    pub n_frames : ℕ
    pub table : ℕ → Option ℕ
    pub clock_hand : ℕ
    pub sm : StorageManager disk

  abbrev pub set_frame : BufferPool → ℕ → Frame → BufferPool
  set_frame bp i f = record bp { frames = update bp.frames i f }

  unfoldable pub new_buffer_pool : StorageManager disk → ℕ → Bytes → BufferPool
  new_buffer_pool sm size buffer = record {
    frames = λ i. record {
      page_id = free_page_id;
      bytes = buffer;
      pin_count = 0;
      usage_count = 0;
      dirty = false;
      evicting = false;
    };
    n_frames = size;
    table = λ id. none;
    clock_hand = 0;
    sm = sm;
  }

  unfoldable pub unpin : ℕ → BufferPool → Result (Unit {0}) × BufferPool
  unpin i bp = if (bp.frames i).pin_count == 0 then (panic, bp) else (
    ok tt,
    set_frame bp i (record (bp.frames i) { pin_count = (bp.frames i).pin_count - 1 }),
  )

  -- What one round of the loop of evictFrame comes to.
  pub data Tick : Type 0 where
    stop : Result ℕ → BufferPool → Tick
    go_on : ℕ → BufferPool → Tick

  -- A round on frame `i`, with the clock hand moved on already.
  unfoldable pub visit : ℕ → ℕ → BufferPool → Tick
  visit i tries bp =
      let frame = bp.frames i in
      if frame.evicting
      then go_on tries bp
      else (if frame.page_id == free_page_id
          then stop (ok i) (set_frame bp i (record frame { evicting = true }))
          else (if frame.pin_count == 0
              then (if not (frame.usage_count == 0)
                  then go_on bp.n_frames
                      (set_frame bp i (record frame { usage_count = frame.usage_count - 1 }))
                  else stop (ok i) (set_frame bp i (record frame { evicting = true })))
              else (if tries - 1 == 0
                  then stop (err buffer_exhausted) bp
                  else go_on (tries - 1) bp)))

  unfoldable pub tick : ℕ → BufferPool → Tick
  unfolding visit
  tick tries bp =
      visit (bp.clock_hand % bp.n_frames) tries
        (record bp { clock_hand = (bp.clock_hand + 1) % 2 ^ 32 })

  -- The loop of evictFrame; `none` is fuel that ran out.
  unfoldable pub evict_loop : ℕ → ℕ → BufferPool → Option (Result ℕ × BufferPool)
  evict_loop zero tries bp = none
  evict_loop (suc fuel) tries bp = elim (tick tries bp) [
    | stop r bp' ↦ some (r, bp')
    | go_on tries' bp' ↦ evict_loop fuel tries' bp'
  ]

  unfoldable pub evict_frame : BufferPool → Option (Result ℕ × BufferPool)
  evict_frame bp = evict_loop (evict_fuel bp.n_frames) bp.n_frames bp

  -- acquireFrame after a dirty victim has been written back: its mapping goes, unless it has been
  -- pinned meanwhile (`none`), and the caller tries another victim.
  unfoldable pub take_over : ℕ → ℕ → BufferPool → Option BufferPool × BufferPool
  take_over i old_page_id bp =
      let victim = bp.frames i in
      if ltb 0 victim.pin_count
      then (none, set_frame bp i (record victim { dirty = false; evicting = false }))
      else (
        some (record bp {
          frames = update bp.frames i (record victim { page_id = free_page_id; dirty = false });
          table = update bp.table old_page_id none;
        }),
        bp,
      )

  -- The write-back of acquireFrame.
  unfoldable pub write_back : ℕ → BufferPool → Result (Unit {0}) × BufferPool
  write_back i bp =
      let victim = bp.frames i in
      if victim.dirty
      then (let (r, sm') = Storage.write_page disk bp.sm victim.page_id victim.bytes in
          elim r [
            | ok u ↦ (ok u, record bp { sm = sm' })
            | err e ↦ (
              err e,
              record bp {
                sm = sm';
                frames = update bp.frames i (record victim { evicting = false });
              },
            )
            | panic ↦ (panic, record bp { sm = sm' })
          ])
      else (ok tt, bp)

  -- acquireFrame, once evictFrame has chosen victim `i`; `none` asks for another victim.
  unfoldable pub claim_victim : ℕ → BufferPool → Option (Result ℕ) × BufferPool
  unfolding write_back take_over
  claim_victim i bp =
      if (bp.frames i).page_id == free_page_id
      then (some (ok i), bp)
      else (let (r, bp1) = write_back i bp in
          elim r [
            | err e ↦ (some (err e), bp1)
            | panic ↦ (some panic, bp1)
            | ok u ↦
                let (taken, bp2) = take_over i ((bp.frames i).page_id) bp1 in
                elim taken [ some bp3 ↦ (some (ok i), bp3) | none ↦ (none, bp2) ]
          ])

  unfoldable pub acquire_loop : ℕ → BufferPool → Option (Result ℕ × BufferPool)
  acquire_loop zero bp = none
  acquire_loop (suc fuel) bp = elim (evict_frame bp) [
    | none ↦ none
    | some (err e, bp1) ↦ some (err e, bp1)
    | some (panic, bp1) ↦ some (panic, bp1)
    | some (ok i, bp1) ↦
        let (r, bp2) = claim_victim i bp1 in
        elim r [ some result ↦ some (result, bp2) | none ↦ acquire_loop fuel bp2 ]
  ]

  -- One round suffices where nothing else runs in between, by `acquire_frame_total`.
  unfoldable pub acquire_frame : BufferPool → Option (Result ℕ × BufferPool)
  acquire_frame bp = acquire_loop 1 bp

  unfoldable pub release_to_free : ℕ → BufferPool → BufferPool
  release_to_free i bp = set_frame bp i (record (bp.frames i) {
    page_id = free_page_id;
    pin_count = 0;
    usage_count = 0;
    dirty = false;
    evicting = false;
  })

  -- The last part of loadAndInstall and of GetForWrite: frame `i` becomes the frame of `page_id`.
  unfoldable pub install : ℕ → ℕ → Frame → BufferPool → BufferPool
  install i page_id frame bp = record bp {
    frames = update bp.frames i (record frame {
      page_id = page_id;
      pin_count = 1;
      usage_count = max_usage_count;
      evicting = false;
    });
    table = update bp.table page_id (some i);
  }

  unfoldable pub load_and_install : ℕ → BufferPool → Option (Result ℕ × BufferPool)
  unfolding install release_to_free
  load_and_install page_id bp = elim (acquire_frame bp) [
    | none ↦ none
    | some (err e, bp1) ↦ some (err e, bp1)
    | some (panic, bp1) ↦ some (panic, bp1)
    | some (ok i, bp1) ↦ elim (Storage.read_page disk bp1.sm page_id) [
      | ok buf ↦ some (ok i, install i page_id (record (bp1.frames i) { bytes = buf }) bp1)
      | err e ↦ some (err e, release_to_free i bp1)
      | panic ↦ some (panic, bp1)
    ]
  ]

  -- Get: the frame that holds the page, pinned once more.
  unfoldable pub get : ℕ → BufferPool → Option (Result ℕ × BufferPool)
  get page_id bp = elim (bp.table page_id) [
    | some i ↦ some (
      ok i,
      set_frame bp i (record (bp.frames i) {
        pin_count = (bp.frames i).pin_count + 1;
        usage_count = max_usage_count;
      }),
    )
    | none ↦ load_and_install page_id bp
  ]

  unfoldable pub get_for_write : ℕ → BufferPool → Option (Result ℕ × BufferPool)
  unfolding install
  get_for_write page_id bp = elim (bp.table page_id) [
    | some i ↦
        let frame = bp.frames i in
        if frame.evicting || ltb 0 frame.pin_count
        then some (err invalid_write, bp)
        else some (
          ok i,
          set_frame bp i
              (record frame { pin_count = 1; usage_count = max_usage_count; dirty = true }),
        )
    | none ↦ elim (acquire_frame bp) [
      | none ↦ none
      | some (err e, bp1) ↦ some (err e, bp1)
      | some (panic, bp1) ↦ some (panic, bp1)
      | some (ok i, bp1) ↦
          some (ok i, install i page_id (record (bp1.frames i) { dirty = true }) bp1)
    ]
  ]

  unfoldable pub allocate_page : ℕ → BufferPool → Option (Result ℕ × BufferPool)
  unfolding get_for_write
  allocate_page page_id bp = elim (Storage.allocate disk bp.sm page_id) [
    | none ↦ none
    | some (err e, sm') ↦ some (err e, record bp { sm = sm' })
    | some (panic, sm') ↦ some (panic, record bp { sm = sm' })
    | some (ok u, sm') ↦ get_for_write page_id (record bp { sm = sm' })
  ]

  unfoldable pub flush_page : ℕ → BufferPool → Result (Unit {0}) × BufferPool
  flush_page page_id bp = elim (bp.table page_id) [
    | none ↦ (ok tt, bp)
    | some i ↦
        let frame = bp.frames i in
        if frame.evicting || not frame.dirty
        then (ok tt, bp)
        else (let (r, sm') = Storage.write_page disk bp.sm page_id frame.bytes in
            elim r [
              | ok u ↦ (
                ok tt,
                record bp {
                  sm = sm';
                  frames =
                      update bp.frames i
                        (if frame.evicting then frame else record frame { dirty = false });
                },
              )
              | err e ↦ (err e, record bp { sm = sm' })
              | panic ↦ (panic, record bp { sm = sm' })
            ])
  ]

  unfoldable pub mark_clean : ℕ → BufferPool → BufferPool
  mark_clean page_id bp = elim (bp.table page_id) [
    | none ↦ bp
    | some i ↦ set_frame bp i (record (bp.frames i) { dirty = false })
  ]

  unfoldable pub sync : BufferPool → Result (Unit {0}) × BufferPool
  sync bp = let (r, sm') = Storage.sync disk bp.sm in (r, record bp { sm = sm' })
