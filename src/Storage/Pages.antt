-- ===== src/Storage/Pages.antt =====
-- Page reads and writes of storage.go, over a file that keeps what is written.
use frostfire.Prelude.{
  ℕ, if◌then◌else◌, ◌+◌, ◌*◌, ◌^◌, ◌≤◌, ◌<◌, ◌≡◌, ◌≢◌, ◌⊎◌, refl, sym, subst, Bool, true, false,
  arith, Option, none, some, Result, ok, err, panic, io_error,
}
use frostfire.Bytes.{Bytes, page_size}
use frostfire.Storage.{Disk, StorageManager, get_offset, read_page, write_page, sync}

-- What the operating system's files promise: `holds` is the page at an offset. A read that succeeds
-- gives it, a write that succeeds sets it, and no write, torn or not, reaches other pages. Sync
-- changes no page.
pub record DiskLaws (disk : Disk) : Type 1 where
  pub holds : disk.File → ℕ → Bytes
  pub reads : (f : disk.File) (o : ℕ) (b : Bytes) → disk.read_at f o ≡ some b → b ≡ holds f o
  pub writes :
      (f : disk.File) (o : ℕ) (b : Bytes)
      → (disk.write_at f o b).0 ≡ true
      → holds (disk.write_at f o b).1 o ≡ b
  pub syncs : (f : disk.File) (o : ℕ) → holds (disk.sync_file f).1 o ≡ holds f o
  pub elsewhere :
      (f : disk.File) (o : ℕ) (b : Bytes) (o' : ℕ)
      → (o + page_size ≤ o') ⊎ (o' + page_size ≤ o)
      → holds (disk.write_at f o b).1 o' ≡ holds f o'

module _ (disk : Disk) where
  -- The page lies inside the file, whose size is an `int64`.
  abbrev pub Inside : StorageManager disk → ℕ → Type 0
  Inside s id = (id * page_size + page_size ≤ s.file_size) × (s.file_size < 2 ^ 63)

  pub get_offset-Inside :
      (s : StorageManager disk) (id : ℕ) → Inside s id → get_offset disk s id ≡ ok (id * page_size)
  unfolding get_offset
  get_offset-Inside s id h = ground arith

module _ {disk : Disk} (laws : DiskLaws disk) where
  open laws use {holds, reads, writes, syncs, elsewhere}

  -- The bytes of a page of the file.
  abbrev pub stored : StorageManager disk → ℕ → Bytes
  stored s id = holds s.file (id * page_size)

  -- What a read gives: the page, or an error of the system.
  abbrev pub Reads : StorageManager disk → ℕ → Result Bytes → Type 0
  Reads s id (ok b) = b ≡ stored s id
  Reads s id (err e) = e ≡ io_error
  Reads s id panic = ⊥

  pub read_page-Reads :
      (s : StorageManager disk) (id : ℕ) → Inside disk s id → Reads s id (read_page disk s id)
  unfolding read_page
  read_page-Reads s id h =
      rw (get_offset-Inside disk s id h, Reads)
        (answer (disk.read_at s.file (id * page_size)) (reads s.file (id * page_size)))
    where
      answer :
          (o : Option Bytes)
          → ((b : Bytes) → o ≡ some b → b ≡ stored s id)
          → Reads s id (elim o [ some buf ↦ ok buf | none ↦ err io_error ])
      answer none f = refl
      answer (some b) f = f b refl

  -- What a write leaves: the size and every other page, and this page if it succeeds.
  pub record Wrote (s : StorageManager disk) (id : ℕ) (b : Bytes) (t : StorageManager disk)
      : Type 0 where
    pub size : t.file_size ≡ s.file_size
    pub others : (j : ℕ) → j ≢ id → stored t j ≡ stored s j

  abbrev pub Writes :
      StorageManager disk → ℕ → Bytes → Result (Unit {0}) × StorageManager disk → Type 0
  Writes s id b (ok u, t) = Wrote s id b t × (stored t id ≡ b)
  Writes s id b (err e, t) = Wrote s id b t
  Writes s id b (panic, t) = ⊥

  apart :
      (i j : ℕ)
      → j ≢ i
      → (i * page_size + page_size ≤ j * page_size) ⊎ (j * page_size + page_size ≤ i * page_size)
  apart i j ne = ground arith

  pub write_page-Writes :
      (s : StorageManager disk) (id : ℕ) (b : Bytes)
      → Inside disk s id
      → Writes s id b (write_page disk s id b)
  unfolding write_page
  write_page-Writes s id b h =
      subst (λ g. Writes s id b (written g)) (sym (get_offset-Inside disk s id h))
        (answer (disk.write_at s.file (id * page_size) b) (writes s.file (id * page_size) b)
          (λ j ne. elsewhere s.file (id * page_size) b (j * page_size) (apart id j ne)))
    where
      written : Result ℕ → Result (Unit {0}) × StorageManager disk
      written g = elim g [
        | panic ↦ (panic, s)
        | err e ↦ (err e, s)
        | ok offset ↦
            let (done, file') = disk.write_at s.file offset b in
            (if done then ok tt else err io_error, record s { file = file' })
      ]

      answer :
          (w : Bool × disk.File)
          → (w.0 ≡ true → holds w.1 (id * page_size) ≡ b)
          → ((j : ℕ) → j ≢ id → holds w.1 (j * page_size) ≡ stored s j)
          → Writes s id b (if w.0 then ok tt else err io_error, record s { file = w.1 })
      answer (true, f) set kept = (record { size = refl; others = kept }, set refl)
      answer (false, f) set kept = record { size = refl; others = kept }

  -- Sync keeps every page, and ends without a panic.
  abbrev pub Syncs : StorageManager disk → Result (Unit {0}) × StorageManager disk → Type 0
  Syncs s (r, t) = (r ≢ panic) × (t.file_size ≡ s.file_size) × ((j : ℕ) → stored t j ≡ stored s j)

  pub sync-Syncs : (s : StorageManager disk) → Syncs s (sync disk s)
  unfolding sync
  sync-Syncs s = answer (disk.sync_file s.file) (syncs s.file)
    where
      answer :
          (w : Bool × disk.File)
          → ((o : ℕ) → holds w.1 o ≡ holds s.file o)
          → Syncs s (if w.0 then ok tt else err io_error, record s { file = w.1 })
      answer (true, f) same = ((λ e. absurd (ground (arith, e))), refl, λ j. same (j * page_size))
      answer (false, f) same = ((λ e. absurd (ground (arith, e))), refl, λ j. same (j * page_size))
