-- ===== src/Txn/Finish.antt =====
-- Commit from FlushPages to commitMeta, over the buffer pool: what is in the file when it ends.
use frostfire.Prelude.{
  ℕ, ◌+◌, ◌*◌, ◌%◌, ◌^◌, ◌<◌, ◌≡◌, ◌≢◌, ◌⊎◌, inl, inr, refl, sym, ◌∙◌, ap, Bool, false, List, [],
  ◌∷◌, All, Option, none, some, Result, ok, err, panic,
}
use frostfire.Bytes.{Bytes, page_size}
use frostfire.Storage.{Disk}
use frostfire.Storage.Pages.{DiskLaws, Inside, stored, sync-Syncs}
use frostfire.Storage.Batches.{VectorLaws}
use frostfire.BufferPool.Defs.{BufferPool}
use frostfire.BufferPool.Defs as Frames
use frostfire.BufferPool.Flush.{dirty_of, flush_pages}
use frostfire.BufferPool.Whole.{WholeFlush}
use frostfire.BufferPool.Coherence.{AtRest}
use frostfire.BufferPool.Saving.{sync-IsCoherent, fewer-IsCoherent}
use frostfire.BufferPool.Durable.{Distinct, IsSaved, SavesAll, flush_pages-SavesAll}
use frostfire.Meta.{Meta, Checksum, meta_page0, meta_page1, decode, next_meta_page}
use frostfire.Meta.Roundtrip.{IsHeader}
use frostfire.Meta.Recovery.{reload}
use frostfire.BTree.Action.{Action, follow, ◌>>=◌}
use frostfire.BTree.Runs.{Run}
use frostfire.Txn.Pager.{Pager}
use frostfire.Txn.Pool.{buffer_pool, finished}
use frostfire.Txn.Defs.{Txn, Db}
use frostfire.Txn.Store.{TxnState}
use frostfire.Txn.Run.{pool_call, on_db, beside}
use frostfire.Txn.Commit.{commit_meta, set_meta, make_durable}
use frostfire.Txn.Durable.{Published, Unchanged, commit_meta-Published}

-- One of the pages of a list.
abbrev pub Among : List ℕ → ℕ → Type 0
Among [] j = ⊥
Among (id ∷ ids) j = (j ≡ id) ⊎ Among ids j

All-Among : (P : ℕ → Type 0) (ids : List ℕ) → ((j : ℕ) → Among ids j → P j) → All P ids
All-Among P [] h = tt
All-Among P (id ∷ ids) h = (h id (inl refl), All-Among P ids (λ j among. h j (inr among)))

module _ {disk : Disk} (laws : DiskLaws disk) (vectors : VectorLaws laws) (page : ℕ → Bytes)
    (Live Settled : ℕ → Type 0) where
  -- The settled pages once `ids` are saved.
  abbrev pub And : List ℕ → ℕ → Type 0
  And ids j = Settled j ⊎ Among ids j

  -- Saved pages are settled.
  settle-AtRest :
      (s : BufferPool disk) (ids : List ℕ)
      → AtRest laws page Live Settled s
      → ((j : ℕ) → Among ids j → Live j)
      → All (IsSaved laws vectors page Live Settled s) ids
      → AtRest laws page Live (And ids) s
  settle-AtRest s ids c live saved = record {
    some_frame = c.some_frame;
    marked = c.marked;
    usage = c.usage;
    mapped = c.mapped;
    inside = c.inside;
    owned = c.owned;
    unpinned = c.unpinned;
    cached = c.cached;
    on_disk = c.on_disk;
    settled = λ id i st e. elim st [
      | inl before ↦ c.settled id i before e
      | inr among ↦ clean ids saved id i among e
    ];
    settled_live =
        λ id st. elim st [ inl before ↦ c.settled_live id before | inr among ↦ live id among ];
    in_file = c.in_file;
  }
    where
      clean :
          (ids : List ℕ)
          → All (IsSaved laws vectors page Live Settled s) ids
          → (id i : ℕ) → Among ids id
          → s.table id ≡ some i
          → (s.frames i).dirty ≡ false
      clean [] saved id i among e = absurd among
      clean (x ∷ ids) saved id i (inl same) e = (saved.0).1 i (ap s.table (sym same) ∙ e)
      clean (x ∷ ids) saved id i (inr among) e = clean ids saved.1 id i among e

  module _ (fuel : ℕ) (under_way : ℕ → Bool) (crc : Checksum) where
    abbrev pooled : Pager
    pooled = buffer_pool disk fuel under_way

    -- The transaction's pages and its header are in the file, and the header is in use.
    pub record Committed (s u : TxnState pooled) : Type 0 where
      pub header : (u.0).meta ≡ record ((s.0).meta) {
        txn_id = ((s.0).meta.txn_id + 1) % 2 ^ 64;
        checksum = (u.0).meta.checksum;
      }
      pub meta : (u.1).current_meta ≡ (u.0).meta
      pub meta_page : (u.1).current_meta_page ≡ next_meta_page (s.1).current_meta_page
      pub found :
          reload crc (stored laws (u.1).pool.sm)
          ≡ ok ((u.0).meta, next_meta_page (s.1).current_meta_page)
      pub saved : All (λ id. stored laws (u.1).pool.sm id ≡ page id) (s.0).allocated
      pub kept : (j : ℕ) → Settled j → stored laws (u.1).pool.sm j ≡ page j
      pub pins : (m : ℕ) → ((u.1).pool.frames m).pin_count ≡ ((s.1).pool.frames m).pin_count
      pub coherent : AtRest laws page Live Settled (u.1).pool

    -- The old header is in use, and no live page is lost.
    pub record Failed (s u : TxnState pooled) : Type 0 where
      pub meta : (u.1).current_meta ≡ (s.1).current_meta
      pub meta_page : (u.1).current_meta_page ≡ (s.1).current_meta_page
      pub pins : (m : ℕ) → ((u.1).pool.frames m).pin_count ≡ ((s.1).pool.frames m).pin_count
      pub coherent : AtRest laws page Live Settled (u.1).pool

    module _ (m : Meta) (t : Txn) (db : Db pooled)
        (place : (db.current_meta_page ≡ meta_page0) ⊎ (db.current_meta_page ≡ meta_page1))
        (dead : Live (next_meta_page db.current_meta_page) → ⊥)
        (inside : Inside disk db.pool.sm (next_meta_page db.current_meta_page))
        (settled : Settled db.current_meta_page)
        (readable : decode crc page_size (page db.current_meta_page) ≡ ok m)
        (small : m.txn_id < 2 ^ 64) (snapshot : t.meta.txn_id ≡ m.txn_id)
        (ready : IsHeader (record (t.meta) { txn_id = (t.meta.txn_id + 1) % 2 ^ 64 }))
        (owned : (j : ℕ) → Among t.allocated j → Live j) where
      abbrev new : Meta
      new = record (t.meta) { txn_id = (t.meta.txn_id + 1) % 2 ^ 64 }

      abbrev Ends : Option (Result (Unit {0}) × TxnState pooled) → Type 0
      Ends o = Run (λ (u : Unit {0}) s. Committed (t, db) s) (λ s. Failed (t, db) s) o

      fewer :
          (s : BufferPool disk)
          → AtRest laws page Live (And t.allocated) s
          → AtRest laws page Live Settled s
      fewer s c =
          fewer-IsCoherent laws page Live (And t.allocated) Live Settled (λ j. false) s
            (λ j live. live) (λ j st. inl st) (λ j st. c.settled_live j (inl st)) c

      -- The header of the transaction is stored, after its pages.
      published :
          (db1 : Db pooled) (o : Option (Result Meta × Db pooled))
          → db1.current_meta ≡ db.current_meta
          → db1.current_meta_page ≡ db.current_meta_page
          → ((j : ℕ) → (db1.pool.frames j).pin_count ≡ (db.pool.frames j).pin_count)
          → Run
              (λ m' u. Published laws page Live (And t.allocated) fuel under_way crc new m' db1 u)
              (λ u. Unchanged laws page Live (And t.allocated) fuel under_way crc db1 u)
              o
          → Ends (follow (beside pooled (record t { meta = new }) o) (set_meta pooled crc))
      published db1 none same same_page pins h = h
      published db1 (some (panic, u)) same same_page pins h = h
      published db1 (some (err e, u)) same same_page pins h = record {
        meta = h.meta ∙ same;
        meta_page = h.meta_page ∙ same_page;
        pins = λ j. h.pins j ∙ pins j;
        coherent = fewer u.pool h.coherent;
      }
      published db1 (some (ok m', u)) same same_page pins h = record {
        header = h.header;
        meta = h.meta;
        meta_page = h.meta_page ∙ ap next_meta_page same_page;
        found = h.found ∙ ap (λ x. ok (m', next_meta_page x)) same_page;
        saved =
            All-Among (λ id. stored laws u.pool.sm id ≡ page id) t.allocated
              (λ j among. h.kept j (inr among));
        kept = λ j st. h.kept j (inl st);
        pins = λ j. h.pins j ∙ pins j;
        coherent = fewer u.pool h.coherent;
      }

      sync_size : (s : BufferPool disk) → (Frames.sync disk s).1.sm.file_size ≡ s.sm.file_size
      unfolding Frames.sync
      sync_size s = (sync-Syncs laws s.sm).1

      after_sync : Action (TxnState pooled) (Unit {0})
      after_sync = set_meta pooled crc new >>= λ u.
          on_db pooled (commit_meta pooled crc new) >>= set_meta pooled crc

      synced :
          (s : BufferPool disk)
          → AtRest laws page Live (And t.allocated) s
          → s.sm.file_size ≡ db.pool.sm.file_size
          → ((j : ℕ) → (s.frames j).pin_count ≡ (db.pool.frames j).pin_count)
          → Ends (
              follow
                (some ((Frames.sync disk s).0, (t, record db { pool = (Frames.sync disk s).1 })))
                (λ u. after_sync))
      unfolding after_sync
      synced s c size pins =
          let (fine, c', frames, same) = sync-IsCoherent laws page Live (And t.allocated) s c in
          go (Frames.sync disk s) fine c' (sync_size s ∙ size)
            (λ j. ap (λ f. (f j).pin_count) frames ∙ pins j)
        where
          go :
              (r : Result (Unit {0}) × BufferPool disk)
              → (r.0 ≢ panic)
              → AtRest laws page Live (And t.allocated) r.1
              → (r.1).sm.file_size ≡ db.pool.sm.file_size
              → ((j : ℕ) → ((r.1).frames j).pin_count ≡ (db.pool.frames j).pin_count)
              → Ends (follow (some (r.0, (t, record db { pool = r.1 }))) (λ u. after_sync))
          go (panic, u) fine c' size' pins' = absurd (fine refl)
          go (err e, u) fine c' size' pins' = record {
            meta = refl;
            meta_page = refl;
            pins = pins';
            coherent = fewer u c';
          }
          go (ok v, u) fine c' size' pins' =
              published (record db { pool = u })
                (commit_meta pooled crc new (record db { pool = u })) refl refl pins'
                (commit_meta-Published laws page Live (And t.allocated) fuel under_way crc m new
                  (record db { pool = u }) place dead (rw size' inside) (inl settled) readable small
                  ready (ap (λ x. (x + 1) % 2 ^ 64) snapshot) c')

      -- Over a coherent pool, if no write of FlushPages stops inside a page, let the current header be
      -- on disk on one of its two pages, in a clean frame or none, with the transaction id that the
      -- transaction began with, and let the other of the two be a page of the file that is not live.
      -- Let the fields of the transaction's header fit their integers, and the pages that it allocated
      -- be live and different. Then Commit from FlushPages to commitMeta ends without a panic. If it
      -- succeeds, every page that the transaction allocated is in the file, loadMeta on the file finds
      -- its header with the next transaction id (modulo 2^64) on the other page, and that header is in
      -- use; settled pages are unchanged. If it fails, the old header is in use. Either way no live
      -- page is lost and every pin is as it was.
      pub make_durable-Committed :
          AtRest laws page Live Settled db.pool
          → db.pool.sm.file_size < fuel * page_size
          → Distinct t.allocated
          → WholeFlush laws fuel under_way (dirty_of disk t.allocated db.pool) db.pool
          → Ends (make_durable pooled crc (t, db))
      unfolding make_durable after_sync
      make_durable-Committed c enough distinct never =
          flushed (flush_pages disk fuel under_way t.allocated db.pool) (
            flush_pages-SavesAll laws vectors page Live Settled fuel under_way t.allocated db.pool c
              enough distinct never)
        where
          flushed :
              (o : Option (Result (Unit {0}) × BufferPool disk))
              → SavesAll laws vectors page Live Settled db.pool t.allocated o
              → let (r, pool') = finished db.pool o in
                Ends (
                  follow
                    (some (r, (t, record db { pool = pool' })))
                    (λ u. on_db pooled (pool_call pooled (Frames.sync disk)) >>= λ u. after_sync))
          flushed none h = h
          flushed (some (panic, u)) h = h
          flushed (some (err e, u)) (c', sw) = record {
            meta = refl;
            meta_page = refl;
            pins = sw.pins;
            coherent = c';
          }
          flushed (some (ok v, u)) (c', sw, saved) =
              synced u (settle-AtRest u t.allocated c' owned saved) sw.size sw.pins
