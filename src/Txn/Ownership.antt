-- ===== src/Txn/Ownership.antt =====
-- Which pages a write transaction may touch: the lists of pages held, set aside for reuse, freed and
-- on the freelist, and what AllocatePage and FreePage do to them.
use frostfire.Prelude.{
  ℕ, ◌+◌, ◌%◌, ◌^◌, ◌≤◌, ◌<◌, ◌≡◌, ◌⊎◌, inl, inr, refl, subst, sym, List, [], ◌∷◌, ◌++◌,
  if◌then◌else◌, arith, All, true, false, Option, none, some, Option-cases, Bool-cases, if-keeps,
  not, Result, ok, err, panic, leb, leb→le,
}
use frostfire.Prelude.Counts.{
  count, count-append, remove_first, count-remove_first, split_last, split_last_lem, All-append,
  All-remove_first, All-split, count_above,
}
use frostfire.Freelist.{FreelistEntry, Freelist, pop_reusable, all}
use frostfire.Freelist.Order.{pop_reusable_lem}
use frostfire.Txn.Pager.{Pager}
use frostfire.Txn.Readers.{open_count, min_reader_txn-le_reader}
use frostfire.Txn.Defs.{
  Txn, Db, min_reader_txn, entered, recycle, extend, take_page, txn_allocate_page, free_page,
}

-- The lists of a transaction and the freelist, over `n` pages of which the first `initial` existed
-- when the transaction began.
pub record Owns (initial n : ℕ) (allocated freed reusable pending : List ℕ) : Type 0 where
  -- A page is held, or set aside for reuse, or on the freelist, and there once.
  pub once : (id : ℕ) → count id allocated + count id reusable + count id pending ≤ 1
  -- A freed page is on neither of the lists that pages are taken from. It may still be held, if the
  -- transaction had it from the freelist.
  pub gone : (id : ℕ) → count id freed + count id reusable + count id pending ≤ 1
  pub allocated_below : All (λ id. id < n) allocated
  pub freed_below : All (λ id. id < n) freed
  pub reusable_below : All (λ id. id < n) reusable
  pub pending_below : All (λ id. id < n) pending
  -- Only pages that no snapshot knows are reused at once.
  pub scratch : All (λ id. initial ≤ id) reusable
  pub grown : initial ≤ n

-- The page is in none of the lists but possibly `freed`.
abbrev Loose : ℕ → List ℕ → List ℕ → List ℕ → Type 0
Loose id allocated reusable pending =
    (count id allocated ≡ 0) × (count id reusable ≡ 0) × (count id pending ≡ 0)

module _ {i n : ℕ} {al fr re pe : List ℕ} (o : Owns i n al fr re pe) where
  Owns-enter : (id : ℕ) → Loose id al re pe → id < n → Owns i n (al ++ id ∷ []) fr re pe
  Owns-enter id loose below = record {
    once = λ j. ground (arith, o.once j, count-append j al (id ∷ []));
    gone = o.gone;
    allocated_below = All-append _ al (id ∷ []) o.allocated_below (below, tt);
    freed_below = o.freed_below;
    reusable_below = o.reusable_below;
    pending_below = o.pending_below;
    scratch = o.scratch;
    grown = o.grown;
  }

  Owns-free :
      (id : ℕ)
      → count id fr + count id re + count id pe ≡ 0
      → id < n
      → Owns i n al (fr ++ id ∷ []) re pe
  Owns-free id loose below = record {
    once = o.once;
    gone = λ j. ground (arith, o.gone j, count-append j fr (id ∷ []));
    allocated_below = o.allocated_below;
    freed_below = All-append _ fr (id ∷ []) o.freed_below (below, tt);
    reusable_below = o.reusable_below;
    pending_below = o.pending_below;
    scratch = o.scratch;
    grown = o.grown;
  }

  Owns-return :
      (id : ℕ)
      → count id fr + count id re + count id pe ≡ 0
      → id < n
      → i ≤ id
      → Owns i n (remove_first id al) fr (re ++ id ∷ []) pe
  Owns-return id loose below new = record {
    once = λ j. ground (arith, o.once j, count-append j re (id ∷ []), count-remove_first id j al);
    gone = λ j. ground (arith, o.gone j, count-append j re (id ∷ []));
    allocated_below = All-remove_first _ id al o.allocated_below;
    freed_below = o.freed_below;
    reusable_below = All-append _ re (id ∷ []) o.reusable_below (below, tt);
    pending_below = o.pending_below;
    scratch = All-append _ re (id ∷ []) o.scratch (new, tt);
    grown = o.grown;
  }

  Owns-grow : Owns i (n + 1) al fr re pe
  Owns-grow = record {
    once = o.once;
    gone = o.gone;
    allocated_below = All-up al o.allocated_below;
    freed_below = All-up fr o.freed_below;
    reusable_below = All-up re o.reusable_below;
    pending_below = All-up pe o.pending_below;
    scratch = o.scratch;
    grown = omega (arith, o.grown);
  }
    where
      All-up : (xs : List ℕ) → All (λ x. x < n) xs → All (λ x. x < n + 1) xs
      All-up [] h = tt
      All-up (x ∷ xs) h = (omega arith, All-up xs h.1)

  Loose-new : (count n al ≡ 0) × (count n re ≡ 0) × (count n pe ≡ 0) × (count n fr ≡ 0)
  Loose-new = (
    count_above n n al o.allocated_below (omega arith),
    count_above n n re o.reusable_below (omega arith),
    count_above n n pe o.pending_below (omega arith),
    count_above n n fr o.freed_below (omega arith),
  )

-- Taking the last reusable page, or the head of the freelist.
module _ {i n id : ℕ} {al fr re pe : List ℕ} where
  Owns-pop_reusable :
      Owns i n al fr (re ++ id ∷ []) pe
      → Owns i n al fr re pe × Loose id al re pe × (count id fr ≡ 0) × (id < n) × (i ≤ id)
  Owns-pop_reusable o =
      let below = All-split (λ x. x < n) re (id ∷ []) o.reusable_below in
      let scratch = All-split (λ x. i ≤ x) re (id ∷ []) o.scratch in
      (
        record {
          once = λ j. ground (arith, o.once j, count-append j re (id ∷ []));
          gone = λ j. ground (arith, o.gone j, count-append j re (id ∷ []));
          allocated_below = o.allocated_below;
          freed_below = o.freed_below;
          reusable_below = below.0;
          pending_below = o.pending_below;
          scratch = scratch.0;
          grown = o.grown;
        },
        (
          ground (arith, o.once id, count-append id re (id ∷ [])),
          ground (arith, o.once id, count-append id re (id ∷ [])),
          ground (arith, o.once id, count-append id re (id ∷ [])),
        ),
        ground (arith, o.gone id, count-append id re (id ∷ [])),
        below.1.0,
        scratch.1.0,
      )

  Owns-pop_pending :
      Owns i n al fr re (id ∷ pe)
      → Owns i n al fr re pe × Loose id al re pe × (count id fr ≡ 0) × (id < n)
  Owns-pop_pending o = (
    record {
      once = λ j. ground (arith, o.once j);
      gone = λ j. ground (arith, o.gone j);
      allocated_below = o.allocated_below;
      freed_below = o.freed_below;
      reusable_below = o.reusable_below;
      pending_below = o.pending_below.1;
      scratch = o.scratch;
      grown = o.grown;
    },
    (ground (arith, o.once id), ground (arith, o.once id), ground (arith, o.once id)),
    ground (arith, o.gone id),
    o.pending_below.0,
  )

module _ (pager : Pager) where
  abbrev pub IsOwned : Txn → Db pager → Type 0
  IsOwned t db =
      Owns t.initial_page_cnt t.meta.num_pages t.allocated t.freed t.reusable (all db.pending)

  -- A page that no open reader and no later transaction can reach: it is younger than every
  -- snapshot, or the freelist has it from a transaction that all of them have seen.
  abbrev pub Unread : Txn → Db pager → ℕ → Type 0
  Unread t db id =
      (t.initial_page_cnt ≤ id)
      ⊎ ((e : FreelistEntry) × (rest : Freelist) × (db.pending ≡ e ∷ rest)
          × (e.page_id ≡ id)
          × (e.freed_at ≤ min_reader_txn pager db))

  -- What a call of AllocatePage may give.
  abbrev pub Granted : Txn → Db pager → Result (ℕ × ℕ) → Type 0
  Granted t db (ok (id, frame)) =
      (count id t.allocated ≡ 0) × (count id t.freed ≡ 0) × Unread t db id
  Granted t db (err e) = Unit {0}
  Granted t db panic = Unit {0}

  entered-IsOwned :
      (id : ℕ) (t : Txn) (db : Db pager) (r : Result ℕ)
      → IsOwned t db
      → Loose id t.allocated t.reusable (all db.pending)
      → id < t.meta.num_pages
      → IsOwned (entered pager id t db r).1 (entered pager id t db r).2
  unfolding entered
  entered-IsOwned id t db (ok frame) o loose below = Owns-enter o id loose below
  entered-IsOwned id t db (err e) o loose below = o
  entered-IsOwned id t db panic o loose below = o

  entered-Granted :
      (id : ℕ) (t0 t : Txn) (db0 db : Db pager) (r : Result ℕ)
      → count id t0.allocated ≡ 0
      → count id t0.freed ≡ 0
      → Unread t0 db0 id
      → Granted t0 db0 (entered pager id t db r).0
  unfolding entered
  entered-Granted id t0 t db0 db (ok frame) a f u = (a, f, u)
  entered-Granted id t0 t db0 db (err e) a f u = tt
  entered-Granted id t0 t db0 db panic a f u = tt

  -- The pages stay accounted for, and what is granted may be written.
  abbrev pub Takes : Txn → Db pager → Result (ℕ × ℕ) × Txn × Db pager → Type 0
  Takes t db (r, t', db') = IsOwned t' db' × Granted t db r

  recycle-Takes :
      (id : ℕ) (t0 t : Txn) (db0 db : Db pager)
      → IsOwned t db
      → Loose id t.allocated t.reusable (all db.pending)
      → id < t.meta.num_pages
      → count id t0.allocated ≡ 0
      → count id t0.freed ≡ 0
      → Unread t0 db0 id
      → Takes t0 db0 (recycle pager id t db)
  unfolding recycle
  recycle-Takes id t0 t db0 db o loose below a f u = (
    entered-IsOwned id t _ (pager.get_for_write id db.pool).0 o loose below,
    entered-Granted id t0 t db0 _ (pager.get_for_write id db.pool).0 a f u,
  )

  extend-Takes :
      (t : Txn) (db : Db pager)
      → IsOwned t db
      → t.meta.num_pages + 1 < 2 ^ 64
      → Takes t db (extend pager t db)
  unfolding extend
  extend-Takes t db o room =
      let new = Loose-new o in
      let n = t.meta.num_pages in
      let wrap : (n + 1) % 2 ^ 64 ≡ n + 1 = omega arith in
      rw wrap (
        entered-IsOwned n (record t { meta = record (t.meta) { num_pages = n + 1 } }) _
            (pager.allocate_page n db.pool).0 (Owns-grow o) (new.0, new.1, new.2) (omega arith),
        entered-Granted n t _ db _ (pager.allocate_page n db.pool).0 new.0 new.3 (inl o.grown),
      )

  take_pending-Takes :
      (t : Txn) (db : Db pager)
      → IsOwned t db
      → t.meta.num_pages + 1 < 2 ^ 64
      → (o : Option (ℕ × Freelist)) → pop_reusable (min_reader_txn pager db) db.pending ≡ o
      → Takes t db (elim o [
        | some (id, pending') ↦ recycle pager id t (record db { pending = pending' })
        | none ↦ extend pager t db
      ])
  take_pending-Takes t db o room none e = extend-Takes t db o room
  take_pending-Takes t db o room (some (id, rest)) e =
      let (entry, head, page, old, ids) = pop_reusable_lem (min_reader_txn pager db) db.pending e in
      let (owned, loose, kept, below) = Owns-pop_pending (
        subst (λ pe. Owns t.initial_page_cnt t.meta.num_pages t.allocated t.freed t.reusable pe) ids
          o) in
      recycle-Takes id t t db (record db { pending = rest }) owned loose below loose.0 kept
        (inr (entry, rest, head, page, old))

  take_page-Takes :
      (t : Txn) (db : Db pager)
      → IsOwned t db
      → t.meta.num_pages + 1 < 2 ^ 64
      → Takes t db (take_page pager t db)
  unfolding take_page
  take_page-Takes t db o room = elim (Option-cases (split_last t.reusable)) [
    | inl e ↦
        rw (e, take_page)
          (take_pending-Takes t db o room (pop_reusable (min_reader_txn pager db) db.pending) refl)
    | inr ((rest, id), e) ↦
        rw (e, take_page)
          (let (owned, loose, kept, below, new) = Owns-pop_reusable (
              subst
                (λ re.
                  Owns t.initial_page_cnt t.meta.num_pages t.allocated t.freed re (all db.pending))
                (split_last_lem t.reusable e) o) in
            recycle-Takes id t (record t { reusable = rest }) db db owned loose below loose.0 kept
              (inl new))
  ]

  -- While the page count is below 2^64 - 1, AllocatePage keeps the lists apart, whether it succeeds or
  -- fails: a page is held, set aside for reuse or on the freelist, once and in one of these lists at
  -- most, and no freed page is among those set aside or on the freelist. A page that it grants was neither held nor freed by this transaction, and is younger than every snapshot or
  -- the oldest page of the freelist, freed no later than the oldest snapshot in use.
  pub txn_allocate_page-Takes :
      (t : Txn) (db : Db pager)
      → IsOwned t db
      → t.meta.num_pages + 1 < 2 ^ 64
      → Takes t db (txn_allocate_page pager t db)
  unfolding txn_allocate_page
  txn_allocate_page-Takes t db o room =
      if-keeps (Takes t db) (not t.writable) (o, tt)
        (if-keeps (Takes t db) t.closed (o, tt) (take_page-Takes t db o room))

  -- FreePage by an open write transaction, of a page of the file that is neither freed, reusable nor
  -- on the freelist, succeeds and keeps the lists apart as `Owns` says. A page that is new since the
  -- transaction began is not held any more and becomes reusable at once. Any older one waits on the
  -- list of freed pages, and is held afterwards as often as before: not at all, or once if the
  -- transaction had it from the freelist.
  pub free_page-IsOwned :
      (id : ℕ) (t : Txn) (db : Db pager)
      → IsOwned t db
      → t.writable ≡ true
      → t.closed ≡ false
      → id < t.meta.num_pages
      → count id t.freed + count id t.reusable + count id (all db.pending) ≡ 0
      → let (r, t') = free_page pager id t in
        (r ≡ ok tt)
        × IsOwned t' db
        × (count id t'.allocated ≡ (if leb t.initial_page_cnt id then 0 else count id t.allocated))
        × (count id t'.reusable ≡ (if leb t.initial_page_cnt id then 1 else 0))
        × (count id t'.freed ≡ (if leb t.initial_page_cnt id then 0 else 1))
  unfolding free_page
  free_page-IsOwned id t db o writes live below loose =
      elim (Bool-cases (leb t.initial_page_cnt id)) [
        | inl new ↦
            rw (writes, live, new)
              (
                refl,
                Owns-return o id loose below (leb→le _ _ new),
                ground (arith, count-remove_first id id t.allocated, o.once id),
                ground (arith, count-append id t.reusable (id ∷ [])),
                omega arith,
              )
        | inr old ↦
            rw (writes, live, old)
              (
                refl,
                Owns-free o id loose below,
                refl,
                omega arith,
                ground (arith, count-append id t.freed (id ∷ [])),
              )
      ]

-- Snapshots: `Sees s id` says that page `id` can be reached from the snapshot of transaction `s`.
module _ (pager : Pager) (Sees : ℕ → ℕ → Type 0) (t : Txn) (db : Db pager)
    (known : (s id : ℕ) → Sees s id → id < t.initial_page_cnt)
    (unlinked : All
      (λ (e : FreelistEntry). (s : ℕ) → e.freed_at ≤ s → ¬ Sees s e.page_id)
      db.pending) where
  -- A page that AllocatePage grants is reached neither from the current snapshot nor from one with
  -- an open reader, if snapshots reach pages of their own time only, and a page on the freelist is
  -- reached from no snapshot since the transaction that freed it.
  pub txn_allocate_page-unseen :
      {id frame : ℕ} {t' : Txn} {db' : Db pager} (s : ℕ)
      → IsOwned pager t db
      → t.meta.num_pages + 1 < 2 ^ 64
      → txn_allocate_page pager t db ≡ (ok (id, frame), t', db')
      → (s ≡ (db.current_meta).txn_id) ⊎ (0 < open_count s db.readers)
      → ¬ Sees s id
  txn_allocate_page-unseen {id} {frame} s o room e reader seen =
      let granted = subst (Takes pager t db) e (txn_allocate_page-Takes pager t db o room) in
      elim granted.1.2 [
        | inl young ↦ ground (arith, known s id seen)
        | inr (entry, rest, head, page, old) ↦
            (subst (All (λ (e : FreelistEntry). (s : ℕ) → e.freed_at ≤ s → ¬ Sees s e.page_id)) head
                unlinked).0
              s (omega (arith, min_reader_txn-le_reader pager db s reader))
              (subst (Sees s) (sym page) seen)
      ]
