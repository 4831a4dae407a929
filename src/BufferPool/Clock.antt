-- ===== src/BufferPool/Clock.antt =====
-- evictFrame: the clock always stops, and it never takes a frame that somebody has pinned.
use frostfire.Prelude.{
  ℕ, zero, suc, ◌+◌, ◌-◌, ◌*◌, ◌%◌, ◌^◌, ◌≤◌, ◌<◌, ◌≡◌, ◌≢◌, refl, ◌∙◌, ◌⊎◌, inl, inr, true, false,
  arith, ◌==◌, Option, none, some, Result, ok, err, panic, buffer_exhausted, Bool-cases, ℕ_discrete,
  ==-refl, ne→==, ==→eq,
}
use native.Mathlib.Nat.{mod-lt, le_refl}
use frostfire.Storage.{Disk}
use frostfire.BufferPool.Defs.{
  Frame, update, BufferPool, set_frame, free_page_id, max_usage_count, Tick, stop, go_on, visit,
  tick, evict_loop, evict_fuel, evict_frame,
}

-- The usage counts of the frames below `n`, added up.
usage_sum : (ℕ → Frame) → ℕ → ℕ
usage_sum frames zero = 0
usage_sum frames (suc k) = usage_sum frames k + (frames k).usage_count

usage_sum-update_above :
    (frames : ℕ → Frame) (i : ℕ) (f : Frame) (n : ℕ)
    → n ≤ i
    → usage_sum (update frames i f) n ≡ usage_sum frames n
unfolding usage_sum
usage_sum-update_above frames i f zero h = refl
usage_sum-update_above frames i f (suc k) h = ground (arith, usage_sum-update_above frames i f k)

usage_sum-update :
    (frames : ℕ → Frame) (i : ℕ) (f : Frame) (n : ℕ)
    → i < n
    → usage_sum (update frames i f) n + (frames i).usage_count ≡ usage_sum frames n + f.usage_count
unfolding usage_sum
usage_sum-update frames i f zero h = elim h [ ]
usage_sum-update frames i f (suc k) h = elim (ℕ_discrete k i) [
  | yes e ↦ rw e (ground (arith, usage_sum-update_above frames i f i))
  | no ne ↦ ground (arith, usage_sum-update frames i f k)
]

usage_sum-le :
    (frames : ℕ → Frame) (n : ℕ)
    → ((i : ℕ) → (frames i).usage_count ≤ max_usage_count)
    → usage_sum frames n ≤ max_usage_count * n
unfolding usage_sum
usage_sum-le frames zero h = omega arith
usage_sum-le frames (suc k) h = omega (arith, usage_sum-le frames k h, h k)

-- The same page in the same state, but that its usage count may have gone down.
pub record Aged (f g : Frame) : Type 0 where
  pub page_id : g.page_id ≡ f.page_id
  pub bytes : g.bytes ≡ f.bytes
  pub pin_count : g.pin_count ≡ f.pin_count
  pub dirty : g.dirty ≡ f.dirty
  pub usage_count : g.usage_count ≤ f.usage_count

Aged-refl : (f : Frame) → Aged f f
Aged-refl f = record {
  page_id = refl;
  bytes = refl;
  pin_count = refl;
  dirty = refl;
  usage_count = omega arith;
}

Aged-trans : {f g h : Frame} → Aged f g → Aged g h → Aged f h
Aged-trans p q = record {
  page_id = q.page_id ∙ p.page_id;
  bytes = q.bytes ∙ p.bytes;
  pin_count = q.pin_count ∙ p.pin_count;
  dirty = q.dirty ∙ p.dirty;
  usage_count = omega arith;
}

-- One unit of usage outweighs a full count of tries.
drop_one : (a b n t : ℕ) → a + 1 ≡ b → 0 < t → a * suc n + n < b * suc n + t
drop_one a b n t e pos = rw (← e) (omega arith)

mul_mono : (a b k : ℕ) → a ≤ b → a * k ≤ b * k
mul_mono a b k h = grind arith

fuel_bound : (u n : ℕ) → u ≤ max_usage_count * n → u * suc n + n ≤ evict_fuel n
fuel_bound u n h = omega (arith, mul_mono u (max_usage_count * n) (suc n) h)

module _ (disk : Disk) where
  -- No frame is being evicted, and there is a frame.
  pub record IsQuiet (bp : BufferPool disk) : Type 0 where
    pub some_frame : 0 < bp.n_frames
    pub idle : (i : ℕ) → (bp.frames i).evicting ≡ false

  -- The pool after the clock has run: the pages, pins and mappings are as before.
  pub record Ran (before after : BufferPool disk) : Type 0 where
    pub n_frames : after.n_frames ≡ before.n_frames
    pub table : after.table ≡ before.table
    pub sm : after.sm ≡ before.sm
    pub aged : (i : ℕ) → Aged (before.frames i) (after.frames i)

  -- A victim was free or unpinned, and it alone is marked; on failure none is marked.
  abbrev pub Chosen : BufferPool disk → Result ℕ → BufferPool disk → Type 0
  Chosen before (ok i) after =
      (i < before.n_frames)
      × (((before.frames i).page_id ≡ free_page_id) ⊎ ((before.frames i).pin_count ≡ 0))
      × ((j : ℕ) → (after.frames j).evicting ≡ (j == i))
  Chosen before (err e) after =
      (e ≡ buffer_exhausted) × ((j : ℕ) → (after.frames j).evicting ≡ false)
  Chosen before panic after = ⊥

  Ran-refl : (bp : BufferPool disk) (hand : ℕ) → Ran bp (record bp { clock_hand = hand })
  Ran-refl bp hand = record {
    n_frames = refl;
    table = refl;
    sm = refl;
    aged = λ i. Aged-refl (bp.frames i);
  }

  Ran-trans : {a b c : BufferPool disk} → Ran a b → Ran b c → Ran a c
  Ran-trans p q = record {
    n_frames = q.n_frames ∙ p.n_frames;
    table = q.table ∙ p.table;
    sm = q.sm ∙ p.sm;
    aged = λ i. Aged-trans (p.aged i) (q.aged i);
  }

  -- What one round does: it stops as it should, or goes on with a smaller measure.
  abbrev After : ℕ → BufferPool disk → Tick disk → Type 0
  After tries bp (stop r bp') = Ran bp bp' × Chosen bp r bp'
  After tries bp (go_on tries' bp') =
      Ran bp bp'
      × IsQuiet bp'
      × (0 < tries')
      × (tries' ≤ bp.n_frames)
      × (usage_sum bp'.frames bp.n_frames * suc bp.n_frames + tries'
          < usage_sum bp.frames bp.n_frames * suc bp.n_frames + tries)

  -- A change of frame `i` that keeps its page.
  Ran-set_frame :
      (bp : BufferPool disk) (i : ℕ) (f : Frame)
      → Aged (bp.frames i) f
      → Ran bp (set_frame disk bp i f)
  Ran-set_frame bp i f a = record {
    n_frames = refl;
    table = refl;
    sm = refl;
    aged = λ j. elim (ℕ_discrete j i) [
      | yes e ↦ rw (e, ==-refl i) a
      | no ne ↦ rw (ne→== j i ne) (Aged-refl (bp.frames j))
    ];
  }

  -- Marking frame `i` in a quiet pool.
  Chosen-mark :
      (bp : BufferPool disk) (i : ℕ)
      → IsQuiet bp
      → i < bp.n_frames
      → ((bp.frames i).page_id ≡ free_page_id) ⊎ ((bp.frames i).pin_count ≡ 0)
      → After 0 bp (stop (ok i) (set_frame disk bp i (record (bp.frames i) { evicting = true })))
  Chosen-mark bp i q h c = (
    Ran-set_frame bp i (record (bp.frames i) { evicting = true })
        (record {
          page_id = refl;
          bytes = refl;
          pin_count = refl;
          dirty = refl;
          usage_count = omega arith;
        }),
    (h, c, λ j. ground (arith, q.idle j)),
  )

  -- The frame that the clock has passed once.
  abbrev passed : Frame → Frame
  passed f = record f { usage_count = f.usage_count - 1; evicting = false }

  age-After :
      (i tries : ℕ) (bp : BufferPool disk)
      → IsQuiet bp
      → i < bp.n_frames
      → 0 < tries
      → (bp.frames i).usage_count ≢ 0
      → After tries bp (go_on bp.n_frames (set_frame disk bp i (passed (bp.frames i))))
  age-After i tries bp q h pos ne =
      let falls = usage_sum-update bp.frames i (passed (bp.frames i)) bp.n_frames h in
      (
        Ran-set_frame bp i (passed (bp.frames i)) (record {
          page_id = refl;
          bytes = refl;
          pin_count = refl;
          dirty = refl;
          usage_count = omega arith;
        }),
        record { some_frame = q.some_frame; idle = λ j. ground (arith, q.idle j) },
        q.some_frame,
        le_refl _,
        drop_one _ _ bp.n_frames tries (omega (arith, falls)) pos,
      )

  visit-After :
      (i tries : ℕ) (bp : BufferPool disk)
      → IsQuiet bp
      → i < bp.n_frames
      → 0 < tries
      → tries ≤ bp.n_frames
      → After tries bp (visit disk i tries bp)
  unfolding visit
  visit-After i tries bp q h pos le =
      rw (q.idle i) (elim (Bool-cases ((bp.frames i).page_id == free_page_id)) [
        | inl free ↦ rw free (Chosen-mark bp i q h (inl (==→eq _ _ free)))
        | inr used ↦ rw used (elim (Bool-cases ((bp.frames i).pin_count == 0)) [
          | inl unpinned ↦ rw unpinned (elim (Bool-cases ((bp.frames i).usage_count == 0)) [
            | inl e ↦ rw e (Chosen-mark bp i q h (inr (==→eq _ _ unpinned)))
            | inr ne ↦ rw ne (age-After i tries bp q h pos (ground arith))
          ])
          | inr pinned ↦ rw pinned (elim (ℕ_discrete (tries - 1) 0) [
            | yes e ↦ rw e (Ran-refl bp bp.clock_hand, (refl, q.idle))
            | no ne ↦
                rw (ne→== _ _ ne)
                  (Ran-refl bp bp.clock_hand, q, omega arith, omega arith, omega arith)
          ])
        ])
      ])

  -- The run of the clock: an end, and what it leaves.
  abbrev pub Ends : BufferPool disk → Option (Result ℕ × BufferPool disk) → Type 0
  Ends bp none = ⊥
  Ends bp (some (r, bp')) = Ran bp bp' × Chosen bp r bp'

  Chosen-after : (a b c : BufferPool disk) (r : Result ℕ) → Ran a b → Chosen b r c → Chosen a r c
  Chosen-after a b c (ok i) p h =
      let g = p.aged i in (ground (arith, p.n_frames), ground (arith, g.page_id, g.pin_count), h.2)
  Chosen-after a b c (err e) p h = h
  Chosen-after a b c panic p h = h

  Ends-after :
      (a b : BufferPool disk) (o : Option (Result ℕ × BufferPool disk))
      → Ran a b
      → Ends b o
      → Ends a o
  Ends-after a b none p h = h
  Ends-after a b (some (r, c)) p h = (Ran-trans p h.0, Chosen-after a b c r p h.1)

  -- The position of the hand plays no part in what the clock keeps.
  After-hand :
      (tries hand : ℕ) (bp : BufferPool disk) (t : Tick disk)
      → After tries (record bp { clock_hand = hand }) t
      → After tries bp t
  After-hand tries hand bp (stop r bp') a =
      let p = Ran-refl bp hand in
      (Ran-trans p a.0, Chosen-after bp (record bp { clock_hand = hand }) bp' r p a.1)
  After-hand tries hand bp (go_on tries' bp') a =
      (Ran-trans (Ran-refl bp hand) a.0, a.1, a.2, a.3, a.4)

  tick-After :
      (tries : ℕ) (bp : BufferPool disk)
      → IsQuiet bp
      → 0 < tries
      → tries ≤ bp.n_frames
      → After tries bp (tick disk tries bp)
  unfolding tick
  tick-After tries bp q pos le =
      After-hand tries hand bp (visit disk (bp.clock_hand % bp.n_frames) tries moved) (
        visit-After (bp.clock_hand % bp.n_frames) tries moved
          (record { some_frame = q.some_frame; idle = q.idle }) (mod-lt _ q.some_frame) pos le)
    where
      hand : ℕ
      hand = (bp.clock_hand + 1) % 2 ^ 32

      moved : BufferPool disk
      moved = record bp { clock_hand = hand }

  evict_loop-Ends :
      (fuel tries : ℕ) (bp : BufferPool disk)
      → IsQuiet bp
      → 0 < tries
      → tries ≤ bp.n_frames
      → usage_sum bp.frames bp.n_frames * suc bp.n_frames + tries ≤ fuel
      → Ends bp (evict_loop disk fuel tries bp)
  unfolding evict_loop
  evict_loop-Ends zero tries bp q pos le enough = absurd (omega arith)
  evict_loop-Ends (suc fuel) tries bp q pos le enough =
      go (tick disk tries bp) (tick-After tries bp q pos le)
        (λ tries' bp'. evict_loop-Ends fuel tries' bp')
    where
      go :
          (t : Tick disk)
          → After tries bp t
          → ((tries' : ℕ) (bp' : BufferPool disk)
              → IsQuiet bp'
              → 0 < tries'
              → tries' ≤ bp'.n_frames
              → usage_sum bp'.frames bp'.n_frames * suc bp'.n_frames + tries' ≤ fuel
              → Ends bp' (evict_loop disk fuel tries' bp'))
          → Ends bp (elim t [
            | stop r bp' ↦ some (r, bp')
            | go_on tries' bp' ↦ evict_loop disk fuel tries' bp'
          ])
      go (stop r bp') a ih = a
      go (go_on tries' bp') a ih =
          Ends-after bp bp' (evict_loop disk fuel tries' bp') a.0
            (ih tries' bp' a.1 a.2 (rw (a.0).n_frames a.3) (rw (a.0).n_frames (omega arith)))

  -- In a pool at rest with usage counts up to 5 the clock always comes to an end: with a frame that
  -- is free or unpinned and is now the only one marked, or with the error of an exhausted pool and
  -- no mark. No page, pin, dirty flag or mapping changes, and no usage count goes up.
  pub evict_frame_total :
      (bp : BufferPool disk)
      → IsQuiet bp
      → ((i : ℕ) → (bp.frames i).usage_count ≤ max_usage_count)
      → (r : Result ℕ) × (after : BufferPool disk) × (evict_frame disk bp ≡ some (r, after))
        × Ran bp after
        × Chosen bp r after
  unfolding evict_frame
  evict_frame_total bp q usage = ended (evict_frame disk bp) (
      evict_loop-Ends (evict_fuel bp.n_frames) bp.n_frames bp q q.some_frame (le_refl _) (
        fuel_bound (usage_sum bp.frames bp.n_frames) bp.n_frames
          (usage_sum-le bp.frames bp.n_frames usage)))
    where
      ended :
          (o : Option (Result ℕ × BufferPool disk))
          → Ends bp o
          → (r : Result ℕ) × (after : BufferPool disk) × (o ≡ some (r, after))
            × Ran bp after
            × Chosen bp r after
      ended none e = absurd e
      ended (some (r, after)) e = (r, after, refl, e.0, e.1)
