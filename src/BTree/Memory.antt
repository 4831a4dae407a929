-- ===== src/BTree/Memory.antt =====
-- A store that keeps every page in memory and counts the pins, for runs of the tree. A page is its
-- own frame.
use frostfire.Prelude.{ℕ, ◌+◌, ◌-◌, ◌==◌, if◌then◌else◌, Result, ok, panic}
use frostfire.Bytes.{Bytes}
use frostfire.BTree.Pages.{Pages}
use frostfire.BTree.Runs.{one_if}

pub record Memory : Type 0 where
  pub pages : ℕ → Bytes
  pub pins : ℕ → ℕ
  pub next : ℕ

abbrev pub memory_unpin : ℕ → Memory → Result (Unit {0}) × Memory
memory_unpin n s =
    if s.pins n == 0 then (panic, s) else (ok tt, record s { pins = λ m. s.pins m - one_if m n })

abbrev pub memory_pages : Pages
memory_pages = record {
  State = Memory;
  get = λ i s. (ok i, record s { pins = λ m. s.pins m + one_if m i });
  allocate =
      λ s. (ok s.next, record s { next = s.next + 1; pins = λ m. s.pins m + one_if m s.next });
  free = λ i s. (ok tt, s);
  unpin = memory_unpin;
  id_of = λ n s. n;
  bytes_of = λ n s. s.pages n;
  set_bytes = λ n d s. record s { pages = λ i. if i == n then d else s.pages i };
}

abbrev pub empty : Memory
empty = record { pages = λ i p. 0; pins = λ n. 0; next = 2 }
