-- ===== src/Bucket/Empty.antt =====
-- DropBucket of a bucket that was committed while it was empty.
use frostfire.Prelude.{ℕ, suc, ◌≡◌, refl, true, false, List, [], ◌∷◌, none, some, ok}
use frostfire.BTree.Pages.{Pages}
use frostfire.BTree.Lookup.{free_subtree}
use frostfire.BTree.Equal.{same_bytes_self}
use frostfire.Bucket.Defs.{
  Session, find, store, catalog_lookup, lookup_bucket, drop_bucket, apply_change, apply_changes,
  apply_bucket_changes,
}

module _ (p : Pages) where
  open p use {State}

  -- An open write transaction that has not used a bucket yet.
  abbrev pub fresh_session : ℕ → Session
  fresh_session catalog = record {
    writable = true;
    closed = false;
    catalog_root = catalog;
    buckets = [];
  }

  -- An open write transaction that finds root 0 for a name in the catalog, the root of a bucket that
  -- was committed while it was empty, can drop that bucket. Its commit then deletes nothing: it keeps
  -- the catalog's root and touches no page, so the entry of the dropped bucket stays.
  pub drop_bucket-stays :
      (fuel catalog : ℕ) (name : List ℕ) (s s' : State)
      → catalog_lookup p (suc fuel) catalog name s ≡ some (ok (some 0), s')
      → (t : Session) × (drop_bucket p (suc fuel) (fresh_session catalog) name s ≡ some (ok t, s'))
        × (apply_bucket_changes p (suc fuel) t s' ≡ some (ok t, s'))
        × (t.catalog_root ≡ catalog)
  unfolding drop_bucket lookup_bucket find store free_subtree apply_bucket_changes apply_changes
      apply_change
  drop_bucket-stays fuel catalog name s s' found = (
    record {
      writable = true;
      closed = false;
      catalog_root = catalog;
      buckets =
          store name (record { tree = none; orig_root = 0; created = false; dropped = true })
            ((name, record { tree = some 0; orig_root = 0; created = false; dropped = false })
              ∷ []);
    },
    rw found refl,
    rw (same_bytes_self name) refl,
    refl,
  )
