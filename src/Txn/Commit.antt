-- ===== src/Txn/Commit.antt =====
-- Commit, and the writing of the header (commitMeta, writeMeta).
use frostfire.Prelude.{
  ℕ, ◌+◌, ◌%◌, ◌^◌, true, false, not, ◌==◌, if◌then◌else◌, length, Option, none, some, Result, ok,
  err, panic, txn_read_only, txn_closed,
}
use frostfire.Bytes.{page_size}
use frostfire.Meta.{Meta, Checksum, encode, next_meta_page}
use frostfire.Freelist.{push}
use frostfire.BTree.Action.{Action, pure, raise, lift, finally, ◌>>=◌, ◌>>◌}
use frostfire.Bucket.Defs.{Buckets, Session, apply_bucket_changes}
use frostfire.Txn.Pager.{Pager}
use frostfire.Txn.Defs.{Db, abort_internal}
use frostfire.Txn.Store.{TxnState, txn_pages}
use frostfire.Txn.Run.{pool_call, page_bytes, set_page_bytes, unpin_page, on_db, the_txn, set_txn}
use frostfire.Txn.Persist.{persist_freelist}

module _ (pager : Pager) (crc : Checksum) where
  open pager use {get_for_write, flush_page, flush_pages, sync}

  -- writeMeta: the header with its checksum, which the encoding sets.
  unfoldable pub write_meta : Meta → ℕ → Action (Db pager) Meta
  write_meta m id = do
    n ← pool_call pager (get_for_write id)
    finally
        (do
          d ← page_bytes pager n
          (d', m') ← lift (encode crc m page_size d)
          set_page_bytes pager n d'
          pure m')
        (unpin_page pager n)

  abbrev pub publish_meta : Meta → ℕ → Action (Db pager) (Unit {0})
  publish_meta m page db = some (ok tt, record db { current_meta = m; current_meta_page = page })

  unfoldable pub commit_meta : Meta → Action (Db pager) Meta
  unfolding write_meta
  commit_meta m db =
      (do
        let next = next_meta_page db.current_meta_page
        m' ← write_meta m next
        pool_call pager (flush_page next)
        pool_call pager sync
        publish_meta m' next
        pure m')
        db

  -- applyBucketChanges on the transaction's own trees.
  unfoldable pub apply_changes_of : ℕ → Buckets → Action (TxnState pager) (Unit {0})
  apply_changes_of fuel buckets = do
    t ← the_txn pager
    let session : Session = record {
      writable = t.writable;
      closed = t.closed;
      catalog_root = t.meta.catalog_root;
      buckets = buckets;
    }
    let changes : Action (TxnState pager) (Unit {0}) = (do
      session' ← apply_bucket_changes (txn_pages pager) fuel session
      t' ← the_txn pager
      set_txn pager
          (record t' { meta = record (t'.meta) { catalog_root = session'.catalog_root } }))
    if length buckets == 0 then pure tt else changes

  abbrev pub set_meta : Meta → Action (TxnState pager) (Unit {0})
  set_meta m = the_txn pager >>= λ t. set_txn pager (record t { meta = m })

  -- Commit from FlushPages to commitMeta.
  unfoldable pub make_durable : Action (TxnState pager) (Unit {0})
  unfolding commit_meta
  make_durable = do
    t ← the_txn pager
    on_db pager (pool_call pager (flush_pages t.allocated))
    on_db pager (pool_call pager sync)
    let m = record (t.meta) { txn_id = (t.meta.txn_id + 1) % 2 ^ 64 }
    set_meta m
    m' ← on_db pager (commit_meta m)
    set_meta m'

  -- The end of Commit: the pages that were given up go on the freelist.
  unfoldable pub finish_commit : Action (TxnState pager) (Unit {0})
  unfolding push
  finish_commit (t, db) = some (
    ok tt,
    (
      record t { closed = true },
      record db {
        pending = push t.meta.txn_id t.reusable (push t.meta.txn_id t.freed db.pending);
        writer_held = false;
      },
    ),
  )

  -- `t.abortInternal(); return err`
  unfoldable pub abort_after :
      {A : Type 0} → Option (Result A × TxnState pager) → Option (Result A × TxnState pager)
  unfolding abort_internal
  abort_after none = none
  abort_after (some (ok a, s)) = some (ok a, s)
  abort_after (some (err e, (t, db))) = some (err e, abort_internal pager t db)
  abort_after (some (panic, s)) = some (panic, s)

  -- Commit past its guards.
  unfoldable pub commit_open : ℕ → Buckets → Action (TxnState pager) (Unit {0})
  unfolding apply_changes_of persist_freelist make_durable finish_commit abort_after
  commit_open fuel buckets =
      (λ s.
        abort_after
          ((apply_changes_of fuel buckets >> persist_freelist pager fuel >> make_durable) s))
      >> finish_commit

  unfoldable pub commit : ℕ → Buckets → Action (TxnState pager) (Unit {0})
  unfolding commit_open
  commit fuel buckets (t, db) =
      (if not t.writable
          then raise txn_read_only
          else (if t.closed then raise txn_closed else commit_open fuel buckets))
        (t, db)
