-- ===== src/Txn/Durable.antt =====
-- commitMeta over the buffer pool: what is in the file when it ends.
use frostfire.Prelude.{
  ℕ, ◌+◌, ◌-◌, ◌%◌, ◌^◌, ◌<◌, ◌≡◌, ◌≢◌, ◌⊎◌, inl, inr, refl, sym, ◌∙◌, ap, subst, Bool, false,
  arith, Option, none, some, Result, ok, err, panic,
}
use frostfire.Bytes.{Bytes, page_size}
use frostfire.Storage.{Disk}
use frostfire.Storage.Pages.{DiskLaws, Inside, stored}
use frostfire.BufferPool.Defs.{BufferPool, update, set_frame}
use frostfire.BufferPool.Defs as Frames
use frostfire.BufferPool.Coherence.{AtRest, update-same, update-other}
use frostfire.BufferPool.Reading.{more, unpin-IsCoherent}
use frostfire.BufferPool.Writing.{Or, Lends, get_for_write-Lends}
use frostfire.BufferPool.Saving.{
  Saves, flush_page-Saves, sync-IsCoherent, settled_saved, before-IsCoherent,
}
use frostfire.Meta.{Meta, Checksum, meta_page0, meta_page1, encode, decode, next_meta_page}
use frostfire.Meta.Roundtrip.{IsHeader, page_of, sum_of}
use frostfire.Meta.Recovery.{Pages, reload, set_page, commit-found}
use frostfire.BTree.Action.{follow, finally, pure}
use frostfire.BTree.Runs.{Run, Run-follow}
use frostfire.Txn.Pool.{buffer_pool, finished, write_frame}
use frostfire.Txn.Defs.{Db}
use frostfire.Txn.Run.{unpin_page}
use frostfire.Txn.Commit.{write_meta, commit_meta}

module _ {disk : Disk} (laws : DiskLaws disk) (page : ℕ → Bytes) (Live Settled : ℕ → Type 0)
    (flush_fuel : ℕ) (under_way : ℕ → Bool) (crc : Checksum) where
  abbrev pub PooledDb : Type 0
  PooledDb = Db (buffer_pool disk flush_fuel under_way)

  -- The database has the same header, and its pool the same live pages and pins.
  pub record Unchanged (s t : PooledDb) : Type 0 where
    pub meta : t.current_meta ≡ s.current_meta
    pub meta_page : t.current_meta_page ≡ s.current_meta_page
    pub pins : (m : ℕ) → (t.pool.frames m).pin_count ≡ (s.pool.frames m).pin_count
    pub coherent : AtRest laws page Live Settled t.pool

  -- Page `id` is live with the header, and nothing else has changed.
  pub record Written (id : ℕ) (new m' : Meta) (s t : PooledDb) : Type 0 where
    pub before : Bytes
    pub header : m' ≡ record new { checksum = sum_of crc new before }
    pub meta : t.current_meta ≡ s.current_meta
    pub meta_page : t.current_meta_page ≡ s.current_meta_page
    pub pins : (m : ℕ) → (t.pool.frames m).pin_count ≡ (s.pool.frames m).pin_count
    pub coherent :
        AtRest laws
          (update page id (page_of crc new before))
          (Or laws page Live Settled id)
          Settled
          t.pool

  write_meta-Written :
      (new : Meta) (id : ℕ) (s : PooledDb)
      → AtRest laws page Live Settled s.pool
      → (Live id → ⊥)
      → Inside disk s.pool.sm id
      → Run
          (λ m' t. Written id new m' s t)
          (λ t. Unchanged s t)
          (write_meta (buffer_pool disk flush_fuel under_way) crc new id s)
  unfolding write_meta encode write_frame
  write_meta-Written new id s c dead inside =
      lent (Frames.get_for_write disk id s.pool)
        (get_for_write-Lends laws page Live Settled s.pool id c dead inside)
    where
      lent :
          (o : Option (Result ℕ × BufferPool disk))
          → Lends laws page Live Settled s.pool id o
          → let (r, pool') = finished s.pool o in
            Run
              (λ m' t. Written id new m' s t)
              (λ t. Unchanged s t)
              (follow (some (r, record s { pool = pool' })) (λ n.
                finally
                  (λ db.
                    let d = (db.pool.frames n).bytes in
                    let sum = sum_of crc new d in
                    some (
                      ok (record new { checksum = sum }),
                      record db { pool = write_frame disk n (page_of crc new d) db.pool },
                    ))
                  (unpin_page (buffer_pool disk flush_fuel under_way) n)))
      lent none h = h
      lent (some (err e, t)) (c', pins) = record {
        meta = refl;
        meta_page = refl;
        pins = pins;
        coherent = c';
      }
      lent (some (panic, t)) h = h
      lent (some (ok i, t)) (idle, pins, filled) =
          let d : Bytes = (t.frames i).bytes in
          let t' : BufferPool disk = write_frame disk i (page_of crc new d) t in
          let held : (m : ℕ) → (t'.frames m).pin_count ≡ (s.pool.frames m).pin_count + more i m =
            λ m. ground (arith, pins m) in
          released i d t' held (
            unpin-IsCoherent laws (update page id (page_of crc new d))
              (Or laws page Live Settled id) Settled i t' (filled (page_of crc new d))
              (ground (arith, held i)))
        where
          released :
              (i : ℕ) (d : Bytes) (t' : BufferPool disk)
              → ((m : ℕ) → (t'.frames m).pin_count ≡ (s.pool.frames m).pin_count + more i m)
              → let (r, u) = Frames.unpin disk i t' in
                (r ≡ ok tt)
                  × AtRest laws
                      (update page id (page_of crc new d))
                      (Or laws page Live Settled id)
                      Settled
                      u
                  × ((m : ℕ) → (u.frames m).pin_count ≡ (t'.frames m).pin_count - more i m)
                → Run
                    (λ m' t. Written id new m' s t)
                    (λ t. Unchanged s t)
                    (follow
                      (unpin_page
                        (buffer_pool disk flush_fuel under_way)
                        i
                        (record s { pool = t' }))
                      (λ u. pure (record new { checksum = sum_of crc new d })))
          released i d t' held (done, c', fewer) =
              rw (done, Run)
                record {
                  before = d;
                  header = refl;
                  meta = refl;
                  meta_page = refl;
                  pins = λ m. ground (arith, held m, fewer m);
                  coherent = c';
                }

  -- The new header is in use and in the file, beside the old one and the settled pages.
  pub record Published (new m' : Meta) (s t : PooledDb) : Type 0 where
    pub header : m' ≡ record new { checksum = m'.checksum }
    pub meta : t.current_meta ≡ m'
    pub meta_page : t.current_meta_page ≡ next_meta_page s.current_meta_page
    pub found : reload crc (stored laws t.pool.sm) ≡ ok (m', next_meta_page s.current_meta_page)
    pub kept : (j : ℕ) → Settled j → stored laws t.pool.sm j ≡ page j
    pub pins : (m : ℕ) → (t.pool.frames m).pin_count ≡ (s.pool.frames m).pin_count
    pub coherent : AtRest laws page Live Settled t.pool

  -- Reloading looks at the two header pages only.
  reload-two :
      (pages : Pages) (current : ℕ) (d : Bytes)
      → (current ≡ meta_page0) ⊎ (current ≡ meta_page1)
      → pages current ≡ page current
      → pages (next_meta_page current) ≡ d
      → reload crc pages ≡ reload crc (set_page page (next_meta_page current) d)
  unfolding next_meta_page
  reload-two pages current d (inl c) old new =
      let old0 : pages 0 ≡ page 0 = subst (λ x. pages x ≡ page x) c old in
      let new1 : pages 1 ≡ d = subst (λ x. pages (next_meta_page x) ≡ d) c new in
      rw (c, old0, new1) refl
  reload-two pages current d (inr c) old new =
      let old1 : pages 1 ≡ page 1 = subst (λ x. pages x ≡ page x) c old in
      let new0 : pages 0 ≡ d = subst (λ x. pages (next_meta_page x) ≡ d) c new in
      rw (c, old1, new0) refl

  module _ (m new : Meta) (s : PooledDb)
      (place : (s.current_meta_page ≡ meta_page0) ⊎ (s.current_meta_page ≡ meta_page1))
      (dead : Live (next_meta_page s.current_meta_page) → ⊥)
      (inside : Inside disk s.pool.sm (next_meta_page s.current_meta_page))
      (settled : Settled s.current_meta_page)
      (readable : decode crc page_size (page s.current_meta_page) ≡ ok m)
      (small : m.txn_id < 2 ^ 64) (ready : IsHeader new)
      (one_later : new.txn_id ≡ (m.txn_id + 1) % 2 ^ 64) where
    next : ℕ
    next = next_meta_page s.current_meta_page

    -- After the write-back of the header's page.
    InFile : Meta → Bytes → PooledDb → Type 0
    InFile m' before t =
        (m' ≡ record new { checksum = sum_of crc new before })
        × (t.current_meta ≡ s.current_meta)
        × (t.current_meta_page ≡ s.current_meta_page)
        × ((j : ℕ) → (t.pool.frames j).pin_count ≡ (s.pool.frames j).pin_count)
        × AtRest laws (update page next (page_of crc new before)) (Or laws page Live Settled next)
            Settled t.pool
        × (stored laws t.pool.sm next ≡ page_of crc new before)

    -- What is coherent with the new header's page is coherent without it.
    without :
        (t : PooledDb) (before : Bytes)
        → ((j : ℕ) → Settled j → Live j)
        → t.current_meta ≡ s.current_meta
        → t.current_meta_page ≡ s.current_meta_page
        → ((j : ℕ) → (t.pool.frames j).pin_count ≡ (s.pool.frames j).pin_count)
        → AtRest laws
            (update page next (page_of crc new before))
            (Or laws page Live Settled next)
            Settled
            t.pool
        → Unchanged s t
    unfolding next
    without t before within meta meta_page pins c = record {
      meta = meta;
      meta_page = meta_page;
      pins = pins;
      coherent =
          before-IsCoherent laws page Live Settled (λ j. false) t.pool next (page_of crc new before)
            dead within c;
    }

    flushed-InFile :
        (m' : Meta) (t : PooledDb) (w : Written next new m' s t)
        → ((j : ℕ) → Settled j → Live j)
        → (r : Result (Unit {0}) × BufferPool disk)
        → Saves laws
            (update page next (page_of crc new w.before))
            (Or laws page Live Settled next)
            Settled
            t.pool
            next
            r
        → Run
            (λ (u : Unit {0}) t'. InFile m' w.before t')
            (λ t'. Unchanged s t')
            (some (r.0, record t { pool = r.1 }))
    unfolding InFile
    flushed-InFile m' t w within (ok u, pool') (c, pins, saved) = (
      w.header,
      w.meta,
      w.meta_page,
      (λ j. pins j ∙ w.pins j),
      c,
      saved (inr refl) ∙ update-same page next (page_of crc new w.before),
    )
    flushed-InFile m' t w within (err e, pool') (c, pins) =
        without (record t { pool = pool' }) w.before within w.meta w.meta_page
          (λ j. pins j ∙ w.pins j) c
    flushed-InFile m' t w within (panic, pool') h = h

    published :
        (m' : Meta) (before : Bytes) (t : PooledDb)
        → ((j : ℕ) → Settled j → Live j)
        → InFile m' before t
        → (r : Result (Unit {0}) × BufferPool disk)
        → (r.0 ≢ panic)
          × AtRest laws
              (update page next (page_of crc new before))
              (Or laws page Live Settled next)
              Settled
              r.1
          × ((r.1).frames ≡ t.pool.frames)
          × ((j : ℕ) → stored laws (r.1).sm j ≡ stored laws t.pool.sm j)
        → Run
            (λ m'' u. Published new m'' s u)
            (λ u. Unchanged s u)
            (follow
              (some (r.0, record t { pool = r.1 }))
              (λ u db. some (ok m', record db { current_meta = m'; current_meta_page = next })))
    unfolding InFile next
    published m' before t within (header, meta, meta_page, pins, c, saved) (ok u, pool')
          (fine, c', frames, same) =
        let d : Bytes = page_of crc new before in
        let off : (j : ℕ) → Settled j → update page next d j ≡ page j =
          λ j st. update-other page next j d (λ e. dead (subst Live e (within j st))) in
        let kept : (j : ℕ) → Settled j → stored laws pool'.sm j ≡ page j = λ j st.
          settled_saved laws (update page next d) (Or laws page Live Settled next) Settled
            (λ i. false) pool' c' j st
          ∙ off j st in
        record {
          header =
              header ∙ ap (λ x. record new { checksum = x }) (sym (ap (λ x. x.checksum) header));
          meta = refl;
          meta_page = refl;
          found =
              reload-two (stored laws pool'.sm) s.current_meta_page d place
                (kept s.current_meta_page settled) (same next ∙ saved)
              ∙ commit-found crc page m new s.current_meta_page before place readable small ready
                  one_later
              ∙ ap (λ x. ok (x, next)) (sym header);
          kept = kept;
          pins = λ j. ap (λ f. (f j).pin_count) frames ∙ pins j;
          coherent =
              before-IsCoherent laws page Live Settled (λ j. false) pool' next d dead within c';
        }
    published m' before t within (header, meta, meta_page, pins, c, saved) (err e, pool')
          (fine, c', frames, same) =
        without (record t { pool = pool' }) before within meta meta_page
          (λ j. ap (λ f. (f j).pin_count) frames ∙ pins j) c'
    published m' before t within h (panic, pool') (fine, c', frames, same) = absurd (fine refl)

    -- In a coherent pool where the current header is on disk on one of its two pages, in a clean
    -- frame or none, commitMeta of a header with the next transaction id (modulo 2^64) ends without a
    -- panic. If it succeeds, that header is in use, on the other page, and loadMeta on the file finds
    -- it there; the settled pages are in the file unchanged. If it fails, the old header is in use.
    -- Either way the pool is coherent, live pages keep their bytes, and no frame stays pinned.
    pub commit_meta-Published :
        AtRest laws page Live Settled s.pool
        → Run
            (λ m' t. Published new m' s t)
            (λ t. Unchanged s t)
            (commit_meta (buffer_pool disk flush_fuel under_way) crc new s)
    unfolding commit_meta next InFile
    commit_meta-Published c =
        Run-follow (λ m' t. Written next new m' s t) (λ m' t. Published new m' s t)
          (λ t. Unchanged s t) (write_meta (buffer_pool disk flush_fuel under_way) crc new next s) _
          (write_meta-Written new next s c dead inside)
          λ m' t w.
            Run-follow (λ (u : Unit {0}) t'. InFile m' w.before t')
              (λ m'' t'. Published new m'' s t') (λ t'. Unchanged s t')
              (some (
                (Frames.flush_page disk next t.pool).0,
                record t { pool = (Frames.flush_page disk next t.pool).1 },
              ))
              _
              (flushed-InFile m' t w c.settled_live (Frames.flush_page disk next t.pool) (
                flush_page-Saves laws (update page next (page_of crc new w.before))
                  (Or laws page Live Settled next) Settled t.pool next w.coherent))
              λ u t' h. published m' w.before t' c.settled_live h (Frames.sync disk t'.pool) (
                sync-IsCoherent laws (update page next (page_of crc new w.before))
                  (Or laws page Live Settled next) Settled t'.pool (at_rest m' w.before t' h))
      where
        at_rest :
            (m' : Meta) (before : Bytes) (t : PooledDb)
            → InFile m' before t
            → AtRest laws
                (update page next (page_of crc new before))
                (Or laws page Live Settled next)
                Settled
                t.pool
        at_rest m' before t h = h.4
