-- ===== src/BufferPool/PoolTests.antt =====
-- Get, GetForWrite and FlushPage on a pool of one frame.
use frostfire.Prelude.{
  ◌∷◌, [], ℕ, ◌+◌, ◌<◌, ◌≡◌, ◌≢◌, Bool, true, false, List, Option, none, some, sym, ℕ_discrete,
  Error, arith,
}
use frostfire.Bytes.{Bytes}
use frostfire.Storage.{StorageManager}
use frostfire.Storage.Pages.{Inside, stored}
use frostfire.Storage.BatchTests.{memory, memory_laws, memory_vectors, memory-NeverInside}
use frostfire.BufferPool.Defs.{BufferPool, update, new_buffer_pool, get, get_for_write, flush_page}
use frostfire.BufferPool.Coherence.{AtRest, update-same, update-other}
use frostfire.BufferPool.Fresh.{new_buffer_pool-AtRest}
use frostfire.BufferPool.Saving.{Saves, flush_page-Saves, fewer-IsCoherent}
use frostfire.BufferPool.Reading.{Hands, get-Hands}
use frostfire.BufferPool.Flush.{flush_pages}
use frostfire.BufferPool.Whole.{WholeRun, WholeRuns}
use frostfire.BufferPool.Durable.{SavesAll, flush_pages-SavesAll}
use frostfire.BufferPool.Writing.{Lends, get_for_write-Lends}

-- Every byte of a page is its number.
abbrev file : StorageManager memory
file = record { file = λ id p. id; file_size = 65536 }

abbrev pool : BufferPool memory
unfolding new_buffer_pool
pool = new_buffer_pool memory file 1 (λ p. 0)

pool-AtRest :
    AtRest memory_laws (stored memory_laws file) (Inside memory file) (Inside memory file) pool
unfolding pool new_buffer_pool
pool-AtRest = new_buffer_pool-AtRest memory_laws file 1 (λ p. 0) (omega arith)

-- A pool of `size` frames over the file, whose first frame has new bytes for page `id`.
unfoldable pub changed_pool : StorageManager memory → ℕ → ℕ → Bytes → BufferPool memory
unfolding new_buffer_pool
changed_pool sm size id d =
    let blank : BufferPool memory = new_buffer_pool memory sm size (λ p. 0) in
    record blank {
      table = update blank.table id (some 0);
      frames =
          update blank.frames 0
            (record (blank.frames 0) { page_id = id; bytes = d; dirty = true; usage_count = 1 });
    }

abbrev pub Besides : StorageManager memory → ℕ → ℕ → Type 0
Besides sm id j = Inside memory sm j × (j ≢ id)

pub changed_pool-AtRest :
    (sm : StorageManager memory) (size id : ℕ) (d : Bytes)
    → 0 < size
    → Inside memory sm id
    → AtRest memory_laws
        (update (stored memory_laws sm) id d)
        (Inside memory sm)
        (Besides sm id)
        (changed_pool sm size id d)
unfolding new_buffer_pool changed_pool
changed_pool-AtRest sm size id d some_frame inside = record {
  some_frame = some_frame;
  marked = λ i. ground arith;
  usage = λ i. ground arith;
  mapped = λ j i e. ground (arith, e);
  inside = λ j i e. ground (arith, e, inside);
  owned = λ i used. ground (arith, used);
  unpinned = λ i free. (ground (arith, free, inside), ground (arith, free, inside));
  settled = λ j i st e. ground (arith, e, st.1);
  settled_live = λ j st. st.0;
  cached = λ j i live e. elim (ℕ_discrete j id) [
    | yes same ↦
        let first : i ≡ 0 = ground (arith, e, same) in
        rw (first, same) (sym (update-same (stored memory_laws sm) id d))
    | no ne ↦ absurd (ground (arith, e, ne))
  ];
  on_disk = λ j live clean. elim (ℕ_discrete j id) [
    | yes same ↦ absurd (ground (arith, clean 0, same))
    | no ne ↦ sym (update-other (stored memory_laws sm) id j d ne)
  ];
  in_file = λ j live. live;
}

get-Hands_example :
    Hands memory_laws
      (stored memory_laws file)
      (Inside memory file)
      (Inside memory file)
      pool
      3
      (get memory 3 pool)
unfolding pool new_buffer_pool
get-Hands_example =
    get-Hands memory_laws (stored memory_laws file) (Inside memory file) (Inside memory file) pool 3
      pool-AtRest (omega arith)

flush_page-Saves_example :
    Saves memory_laws
      (stored memory_laws file)
      (Inside memory file)
      (Inside memory file)
      pool
      3
      (flush_page memory 3 pool)
flush_page-Saves_example =
    flush_page-Saves memory_laws (stored memory_laws file) (Inside memory file) (Inside memory file)
      pool 3 pool-AtRest

abbrev Low : ℕ → Type 0
Low id = id < 3

Low-AtRest : AtRest memory_laws (stored memory_laws file) Low Low pool
unfolding pool new_buffer_pool
Low-AtRest =
    fewer-IsCoherent memory_laws (stored memory_laws file) (Inside memory file) (Inside memory file)
      Low Low (λ j. false) pool (λ j low. omega (arith, low)) (λ j low. omega (arith, low))
      (λ j low. low) pool-AtRest

get_for_write-Lends_example :
    Lends memory_laws (stored memory_laws file) Low Low pool 3 (get_for_write memory 3 pool)
unfolding pool new_buffer_pool
get_for_write-Lends_example =
    get_for_write-Lends memory_laws (stored memory_laws file) Low Low pool 3 Low-AtRest
      (λ low. omega (arith, low)) (omega arith)

memory-WholeRun :
    (fuel : ℕ) (run : List ℕ) (s : BufferPool memory) → WholeRun memory_laws fuel run s
memory-WholeRun fuel [] s = tt
memory-WholeRun fuel (i ∷ is) s = memory-NeverInside fuel _ _ _

-- Flushes to memory write whole pages.
pub memory-WholeRuns :
    (fuel : ℕ) (under_way : ℕ → Bool) (k : ℕ) (runs : List (List ℕ)) (failed : Option Error)
    (s : BufferPool memory)
    → WholeRuns memory_laws fuel under_way k runs failed s
unfolding WholeRuns
memory-WholeRuns fuel under_way k [] failed s = tt
memory-WholeRuns fuel under_way k (run ∷ runs) none s =
    (memory-WholeRun fuel run s, λ r t e. memory-WholeRuns fuel under_way (k + 1) runs _ t)
memory-WholeRuns fuel under_way k (run ∷ runs) (some e) s = (
  (λ early.
      (memory-WholeRun fuel run s, λ r t e'. memory-WholeRuns fuel under_way (k + 1) runs _ t)),
  (λ later. memory-WholeRuns fuel under_way (k + 1) runs (some e) s),
)

-- Pages 3 and 5 are flushed, of which page 3 has changed.
flush_pages-SavesAll_example :
    SavesAll memory_laws memory_vectors
      (update (stored memory_laws file) 3 (λ p. 77))
      (Inside memory file)
      (Besides file 3)
      (changed_pool file 1 3 (λ p. 77))
      (3 ∷ 5 ∷ [])
      (flush_pages memory 17 (λ run. false) (3 ∷ 5 ∷ []) (changed_pool file 1 3 (λ p. 77)))
unfolding changed_pool
flush_pages-SavesAll_example =
    flush_pages-SavesAll memory_laws memory_vectors (update (stored memory_laws file) 3 (λ p. 77))
      (Inside memory file) (Besides file 3) 17 (λ run. false) (3 ∷ 5 ∷ [])
      (changed_pool file 1 3 (λ p. 77))
      (changed_pool-AtRest file 1 3 (λ p. 77) (omega arith) (omega arith)) (omega arith)
      (omega arith) (memory-WholeRuns 17 (λ run. false) 0 _ none _)
