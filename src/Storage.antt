-- ===== src/Storage.antt =====
-- storage.go: pages of a file that grows on demand. The file itself (os.File and the calls of
-- golang.org/x/sys/unix) is a parameter. An `int64` is its bit pattern, a number below 2 ^ 64.
pub mod Growth
pub mod Pages
pub mod Vectored
pub mod Batches
pub mod Torn
mod Tests
pub mod BatchTests
use frostfire.Prelude.{
  ℕ, zero, suc, ◌+◌, ◌*◌, ◌%◌, ◌^◌, max, Bool, true, false, not, ◌&&◌, ltb, ◌==◌, if◌then◌else◌,
  List, Option, none, some, Result, ok, err, panic, invalid_file_size, io_error,
}
use frostfire.Bytes.{Bytes, page_size}

-- A byte slice inside a page: its bytes from an index on.
abbrev pub Buffer : Type 0
Buffer = Bytes × ℕ

-- The operations on an open file. A `false` or `none` is an `error`; a failed write or truncation
-- may still have changed the file.
pub record Disk : Type 1 where
  pub File : Type 0
  pub read_at : File → ℕ → Option Bytes
  pub write_at : File → ℕ → Bytes → Bool × File
  pub truncate : File → ℕ → Bool × File
  pub sync_file : File → Bool × File
  -- `unix.Pwritev`: the number of bytes written.
  pub pwritev : File → List Buffer → ℕ → Option ℕ × File
  pub close_file : File → Bool

abbrev pub init_file_size : ℕ
init_file_size = 16 * page_size

abbrev pub max_growth : ℕ
max_growth = 256 * page_size

abbrev pub word : ℕ
word = 2 ^ 64

-- `a > b` for an `int64` bit pattern `a` and a size `b`, which is not negative.
abbrev pub exceeds : ℕ → ℕ → Bool
exceeds a b = ltb a (2 ^ 63) && ltb b a

-- `a < b` on the type `int64`, whose negative numbers are those from 2^63 on.
abbrev pub signed_lt : ℕ → ℕ → Bool
signed_lt a b = ltb ((a + 2 ^ 63) % word) ((b + 2 ^ 63) % word)

-- The loop of growSize.
unfoldable pub grow_loop : ℕ → ℕ → ℕ → Option ℕ
grow_loop zero size required = none
grow_loop (suc fuel) size required =
    let growth = if signed_lt size max_growth then max_growth else size in
    let rest = grow_loop fuel ((size + growth) % word) required in
    if signed_lt size required then rest else some size

-- The loop ends within `required` rounds, as `grow_size_total` shows.
unfoldable pub grow_size : ℕ → ℕ → Option ℕ
unfolding grow_loop
grow_size file_size required = grow_loop (suc required) (max file_size init_file_size) required

module _ (disk : Disk) where
  open disk use {File, read_at, write_at, truncate, sync_file}

  pub record StorageManager : Type 0 where
    pub file : File
    pub file_size : ℕ

  -- NewStorageManager, on the file that was opened and its size.
  unfoldable pub new_storage_manager : File → ℕ → Result (StorageManager × Bool)
  new_storage_manager file size =
      if not (size % page_size == 0)
      then err invalid_file_size
      else ok (record { file = file; file_size = size }, size == 0)

  unfoldable pub get_offset : StorageManager → ℕ → Result ℕ
  get_offset s page_id =
      let offset = page_id * page_size % word in
      if exceeds ((offset + page_size) % word) s.file_size then panic else ok offset

  unfoldable pub read_page : StorageManager → ℕ → Result Bytes
  unfolding get_offset
  read_page s page_id = elim (get_offset s page_id) [
    | panic ↦ panic
    | err e ↦ err e
    | ok offset ↦ elim (read_at s.file offset) [ some buf ↦ ok buf | none ↦ err io_error ]
  ]

  unfoldable pub write_page : StorageManager → ℕ → Bytes → Result (Unit {0}) × StorageManager
  unfolding get_offset
  write_page s page_id buf = elim (get_offset s page_id) [
    | panic ↦ (panic, s)
    | err e ↦ (err e, s)
    | ok offset ↦
        let (done, file') = write_at s.file offset buf in
        (if done then ok tt else err io_error, record s { file = file' })
  ]

  unfoldable pub sync : StorageManager → Result (Unit {0}) × StorageManager
  sync s =
      let (done, file') = sync_file s.file in
      (if done then ok tt else err io_error, record s { file = file' })

  -- Allocate from `s.file.Truncate(newSize)` on.
  unfoldable pub extend_to : StorageManager → ℕ → Result (Unit {0}) × StorageManager
  extend_to s new_size =
      let (done, file') = truncate s.file new_size in
      if done
      then (ok tt, record { file = file'; file_size = new_size })
      else (err io_error, record s { file = file' })

  -- `none`: the loop of `grow_size` ran out of fuel.
  unfoldable pub allocate : StorageManager → ℕ → Option (Result (Unit {0}) × StorageManager)
  unfolding extend_to
  allocate s page_id =
      let required = (page_id + 1) % word * page_size % word in
      if not (exceeds required s.file_size)
      then some (ok tt, s)
      else elim (grow_size s.file_size required) [
        | none ↦ none
        | some new_size ↦ some (extend_to s new_size)
      ]

  unfoldable pub close : StorageManager → Result (Unit {0})
  close s = if disk.close_file s.file then ok tt else err io_error
