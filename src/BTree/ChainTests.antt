-- ===== src/BTree/ChainTests.antt =====
-- A chain of overflow pages in a store in memory that has room for 1000 pages.
use frostfire.Prelude.{
  true, false, ℕ, ◌-◌, ◌^◌, ◌<◌, ◌≡◌, refl, List, length, replicate, ltb, ltb→lt, ==-refl, ne→==,
  if◌then◌else◌, Result, ok, err, buffer_exhausted, arith,
}
use frostfire.BTree.Pages.{Pages}
use frostfire.BTree.Action.{◌>>=◌}
use frostfire.BTree.Memory.{Memory, memory_unpin, memory_pages, empty}
use frostfire.BTree.Overflow.{write_overflow_pages, read_overflow_pages}
use frostfire.BTree.Runs.{Run, one_if}
use frostfire.BTree.Chains.{Store, WriteLaws, Granted}
use frostfire.BTree.Roundtrip.{read-write_overflow_pages}

abbrev small_allocate : Memory → Result ℕ × Memory
small_allocate s = if ltb s.next 1000 then memory_pages.allocate s else (err buffer_exhausted, s)

abbrev small_pages : Pages
small_pages = record memory_pages { allocate = small_allocate }

abbrev in_memory : Store small_pages
in_memory = record {
  Good = λ s. 0 < s.next;
  Used = λ s i. i < s.next;
  content = λ s. s.pages;
  pins = λ s. s.pins;
}

small_allocate-Granted :
    (s : Memory) → 0 < s.next → Granted small_pages in_memory s (small_allocate s)
small_allocate-Granted s good =
    elim (ltb s.next 1000)
        as (λ b.
          ltb s.next 1000 ≡ b
          → Granted small_pages in_memory s
              (if b then memory_pages.allocate s else (err buffer_exhausted, s))) [
                | true ↦ λ e. (
                  omega arith,
                  (λ m. refl),
                  (λ z. absurd (omega arith)),
                  below (ltb→lt s.next 1000 e),
                  (λ u. absurd (omega arith)),
                  omega arith,
                  (λ i u. omega arith),
                  (λ i u. refl),
                  (λ m h. refl),
                )
                | false ↦ λ e. (good, λ m. refl)
              ]
      refl
  where
    below : {n : ℕ} → n < 1000 → n < 256 ^ 8
    below h = omega arith

in_memory-WriteLaws : WriteLaws small_pages in_memory
in_memory-WriteLaws = record {
  get_law = λ i s good used. (good, refl, (λ m. refl), (λ j u. u), (λ j u. refl));
  allocate_law = small_allocate-Granted;
  bytes_law = λ n s good pinned. refl;
  write_law = λ n d s good pinned. (
    good,
    (λ m. refl),
    (λ m. refl),
    (λ i u. u),
    rw (==-refl n) refl,
    (λ i ne. rw (ne→== i n ne) refl),
  );
  unpin_law = λ n s good pinned. unpinned n s good pinned;
}
  where
    unpinned :
        (n : ℕ) (s : Memory)
        → 0 < s.next
        → 0 < s.pins n
        → let (r, t) = memory_unpin n s in
          (r ≡ ok tt)
          × (0 < t.next)
          × ((m : ℕ) → t.pins m ≡ s.pins m - one_if m n)
          × ((m : ℕ) → 0 < t.pins m → m ≡ m)
          × ((i : ℕ) → i < s.next → i < t.next)
          × ((i : ℕ) → t.pages i ≡ s.pages i)
    unpinned n s good pinned =
        rw (ne→== (s.pins n) 0 (omega arith))
          (refl, good, (λ m. refl), (λ m h. refl), (λ i u. u), (λ i. refl))

-- A value that takes three pages.
abbrev long_value : List ℕ
long_value = replicate 9000 7

long_value_read_back :
    Run
      (λ v t. (v ≡ long_value) × (0 < t.next) × ((m : ℕ) → t.pins m ≡ empty.pins m))
      (λ t. (0 < t.next) × ((m : ℕ) → t.pins m ≡ empty.pins m))
      ((write_overflow_pages small_pages long_value >>= λ first.
          read_overflow_pages small_pages 9001 first (length long_value))
        empty)
long_value_read_back =
    read-write_overflow_pages in_memory in_memory-WriteLaws 9001 long_value empty (omega arith)
      (omega arith)
