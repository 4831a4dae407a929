-- ===== src/BufferPool/Tests.antt =====
-- Runs of the clock on a pool of three frames: one pinned, one used lately, one not.
use frostfire.Prelude.{
  ℕ, ◌≡◌, refl, true, false, arith, Option, some, none, Result, ok, ◌==◌, if◌then◌else◌,
}
use frostfire.Bytes.{Bytes}
use frostfire.Storage.{Disk}
use frostfire.BufferPool.Defs.{Frame, BufferPool, evict_frame, evict_loop, tick}
use frostfire.BufferPool.Clock.{Ran, Chosen, evict_frame_total}

abbrev memory : Disk
memory = record {
  File = ℕ → Bytes;
  read_at = λ f o. some (f o);
  write_at = λ f o b. (true, λ p. if p == o then b else f p);
  truncate = λ f size. (true, f);
  sync_file = λ f. (true, f);
  pwritev = λ f bufs o. (none, f);
  close_file = λ f. true;
}

abbrev frame : ℕ → ℕ → ℕ → Frame
frame id pins usage = record {
  page_id = id;
  bytes = λ p. id;
  pin_count = pins;
  usage_count = usage;
  dirty = false;
  evicting = false;
}

abbrev pool : BufferPool memory
pool = record {
  frames = λ i. if i == 0 then frame 10 1 5 else if i == 1 then frame 11 0 2 else frame 12 0 1;
  n_frames = 3;
  table = λ id.
      if id == 10 then some 0 else if id == 11 then some 1 else if id == 12 then some 2 else none;
  clock_hand = 0;
  sm = record { file = λ o p. 0; file_size = 65536 };
}

-- The second round finds frame 2 with its usage gone.
evict_chooses_2 : Option (Result ℕ)
unfolding evict_frame evict_loop
evict_chooses_2 = elim (evict_frame memory pool) [ some (r, after) ↦ some r | none ↦ none ]

evict_chooses_2_lem : evict_chooses_2 ≡ some (ok 2)
unfolding evict_chooses_2 tick
evict_chooses_2_lem = refl

evict_frame_total_example :
    (r : Result ℕ) × (after : BufferPool memory) × (evict_frame memory pool ≡ some (r, after))
    × Ran memory pool after
    × Chosen memory pool r after
evict_frame_total_example =
    evict_frame_total memory pool (record { some_frame = omega arith; idle = λ i. ground arith })
      (λ i. ground arith)
