-- ===== src/Txn/Readers.antt =====
-- The reader table: it counts the open read transactions of each snapshot, and minReaderTxn is the
-- oldest snapshot that may still be read.
use frostfire.Prelude.{
  ℕ, ◌+◌, ◌-◌, ◌≤◌, ◌<◌, ◌≡◌, ◌⊎◌, refl, [], ◌∷◌, ◌==◌, if◌then◌else◌, arith, All, true, false, inl,
  inr,
}
use frostfire.Txn.Pager.{Pager}
use frostfire.Txn.Defs.{
  Readers, register, unregister, min_key, Txn, Db, min_reader_txn, begin_read, abort,
}

-- How many transactions read snapshot `id`.
abbrev pub open_count : ℕ → Readers → ℕ
open_count id [] = 0
open_count id ((k, n) ∷ rs) = (if k == id then n else 0) + open_count id rs

-- An entry is deleted when its count comes to 0.
abbrev pub AllOpen : Readers → Type 0
AllOpen rs = All (λ (r : ℕ × ℕ). 0 < r.1) rs

open_count-register :
    (id j : ℕ) (rs : Readers)
    → open_count j (register id rs) ≡ open_count j rs + (if id == j then 1 else 0)
unfolding register
open_count-register id j [] = ground arith
open_count-register id j ((k, n) ∷ rs) = ground (arith, open_count-register id j rs)

register-AllOpen : (id : ℕ) (rs : Readers) → AllOpen rs → AllOpen (register id rs)
unfolding register
register-AllOpen id [] h = omega arith
register-AllOpen id ((k, n) ∷ rs) h = ground (arith, register-AllOpen id rs h.1)

open_count-unregister :
    (id j : ℕ) (rs : Readers)
    → AllOpen rs
    → open_count j (unregister id rs) ≡ open_count j rs - (if id == j then 1 else 0)
unfolding unregister
open_count-unregister id j [] h = ground arith
open_count-unregister id j ((k, n) ∷ rs) h = ground (arith, open_count-unregister id j rs h.1)

unregister-AllOpen : (id : ℕ) (rs : Readers) → AllOpen rs → AllOpen (unregister id rs)
unfolding unregister
unregister-AllOpen id [] h = tt
unregister-AllOpen id ((k, n) ∷ rs) h = ground (arith, unregister-AllOpen id rs h.1)

min_key-le : (least : ℕ) (rs : Readers) → min_key least rs ≤ least
unfolding min_key
min_key-le least [] = omega arith
min_key-le least ((k, n) ∷ rs) = ground (arith, min_key-le least rs, min_key-le k rs)

min_key-open : (least id : ℕ) (rs : Readers) → 0 < open_count id rs → min_key least rs ≤ id
unfolding min_key
min_key-open least id [] h = elim h [ ]
min_key-open least id ((k, n) ∷ rs) h =
    ground
      (arith, min_key-open least id rs, min_key-open k id rs, min_key-le least rs, min_key-le k rs)

-- The least is the start, or the snapshot of an open reader.
min_key-attained :
    (least : ℕ) (rs : Readers)
    → AllOpen rs
    → (min_key least rs ≡ least) ⊎ (0 < open_count (min_key least rs) rs)
unfolding min_key
min_key-attained least [] h = inl refl
min_key-attained least ((k, n) ∷ rs) h =
    ground (arith, min_key-attained least rs h.1, min_key-attained k rs h.1)

module _ (pager : Pager) where
  -- The bound that AllocatePage tests against is at most the current snapshot, and at most every
  -- snapshot with an open reader.
  pub min_reader_txn-le_reader :
      (db : Db pager) (id : ℕ)
      → (id ≡ (db.current_meta).txn_id) ⊎ (0 < open_count id db.readers)
      → min_reader_txn pager db ≤ id
  unfolding min_reader_txn
  min_reader_txn-le_reader db id (inl e) = rw e (min_key-le _ db.readers)
  min_reader_txn-le_reader db id (inr h) = min_key-open _ id db.readers h

  -- Where every registered count is positive the bound is no lower than it has to be: it is the
  -- current snapshot, or one with an open reader.
  pub min_reader_txn-attained :
      (db : Db pager)
      → AllOpen db.readers
      → (min_reader_txn pager db ≡ (db.current_meta).txn_id)
        ⊎ (0 < open_count (min_reader_txn pager db) db.readers)
  unfolding min_reader_txn
  min_reader_txn-attained db h = min_key-attained (db.current_meta).txn_id db.readers h

  -- Where every registered count is positive, a read transaction that begins has the current
  -- snapshot and is counted for it and for no other; the counts stay positive.
  pub begin_read-counted :
      (db : Db pager) (j : ℕ)
      → AllOpen db.readers
      → let (t, db') = begin_read pager db in
        (t.meta ≡ db.current_meta)
        × (open_count j db'.readers
            ≡ open_count j db.readers + (if (db.current_meta).txn_id == j then 1 else 0))
        × AllOpen db'.readers
  unfolding begin_read
  begin_read-counted db j h =
      let id = (db.current_meta).txn_id in
      (refl, open_count-register id j db.readers, register-AllOpen id db.readers h)

  -- Where every registered count is positive, aborting an open read transaction, at any later time,
  -- takes one reader from its own snapshot and none from another, and closes it; the counts stay
  -- positive and the writer's mutex stays as it is.
  pub abort-counted :
      (t : Txn) (db : Db pager) (j : ℕ)
      → AllOpen db.readers
      → t.writable ≡ false
      → t.closed ≡ false
      → let (t', db') = abort pager t db in
        (open_count j db'.readers ≡ open_count j db.readers - (if t.meta.txn_id == j then 1 else 0))
        × AllOpen db'.readers
        × (t'.closed ≡ true)
        × (db'.writer_held ≡ db.writer_held)
  unfolding abort
  abort-counted t db j h reads live =
      rw (live, reads)
        (
          open_count-unregister t.meta.txn_id j db.readers h,
          unregister-AllOpen t.meta.txn_id db.readers h,
          refl,
          refl,
        )
