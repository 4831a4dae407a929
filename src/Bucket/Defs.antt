-- ===== src/Bucket/Defs.antt =====
-- Buckets. The catalog is a tree from names to roots of eight bytes; a transaction caches the buckets
-- that it has opened, and writes the changed ones to the catalog when it commits.
use frostfire.Prelude.{
  ℕ, ◌+◌, ◌*◌, Bool, true, false, not, ◌||◌, List, [], ◌∷◌, ◌==◌, if◌then◌else◌, length, Option,
  none, some, panic, txn_read_only, txn_closed, bucket_not_found, bucket_exists,
  malformed_catalog_entry,
}
use frostfire.Bytes.{put_le, slice}
use frostfire.BTree.Pages.{Pages}
use frostfire.BTree.Action.{Action, pure, raise, lift, ◌>>=◌, ◌>>◌}
use frostfire.BTree.Lookup.{search_tree, free_subtree}
use frostfire.BTree.Update.{Mode, upsert, update_tree, same_bytes}
use frostfire.BTree.Delete.{delete_tree}

pub record Bucket : Type 0 where
  -- `bt`: the root of the tree, or none for nil.
  pub tree : Option ℕ
  pub orig_root : ℕ
  pub created : Bool
  pub dropped : Bool

abbrev pub Buckets : Type 0
Buckets = List (List ℕ × Bucket)

-- The fields of Txn that concern buckets.
pub record Session : Type 0 where
  pub writable : Bool
  pub closed : Bool
  pub catalog_root : ℕ
  pub buckets : Buckets

unfoldable pub find : List ℕ → Buckets → Option Bucket
find name [] = none
find name ((k, b) ∷ bs) = if same_bytes k name then some b else find name bs

unfoldable pub store : List ℕ → Bucket → Buckets → Buckets
store name b [] = (name, b) ∷ []
store name b ((k, c) ∷ bs) = if same_bytes k name then (k, b) ∷ bs else (k, c) ∷ store name b bs

-- `binary.LittleEndian.Uint64` and `PutUint64` on eight bytes.
unfoldable pub le_value : List ℕ → ℕ
le_value [] = 0
le_value (b ∷ bs) = b + 256 * le_value bs

unfoldable pub root_bytes : ℕ → List ℕ
root_bytes root = slice 8 (put_le 8 (λ i. 0) 0 root) 0

module _ (p : Pages) where
  open p use {State}

  -- The tree of a bucket that was not dropped; a method call on nil panics.
  abbrev tree_of : Bucket → Action State ℕ
  tree_of b =
      if b.dropped
      then raise bucket_not_found
      else elim b.tree [ some root ↦ pure root | none ↦ lift panic ]

  unfoldable pub bucket_get : ℕ → Bucket → List ℕ → Action State (Option (List ℕ))
  bucket_get fuel b k = tree_of b >>= λ root. search_tree p fuel root k

  -- Put, Insert and Update, which differ in the mode. They give the changed bucket; the code changes
  -- it in place, where the transaction's cache shares it.
  unfoldable pub bucket_write : ℕ → Mode → Bucket → List ℕ → List ℕ → Action State Bucket
  bucket_write fuel mode b k v = do
    root ← tree_of b
    root' ← update_tree p fuel root k v mode
    pure (record b { tree = some root' })

  unfoldable pub bucket_delete : ℕ → Bucket → List ℕ → Action State Bucket
  bucket_delete fuel b k = do
    root ← tree_of b
    (root', found) ← delete_tree p fuel root k
    pure (record b { tree = some root' })

  -- catalogLookup on the value that Search found.
  unfoldable pub catalog_entry : Option (List ℕ) → Action State (Option ℕ)
  unfolding le_value
  catalog_entry none = pure none
  catalog_entry (some v) =
      if length v == 8 then pure (some (le_value v)) else raise malformed_catalog_entry

  unfoldable pub catalog_lookup : ℕ → (catalog_root : ℕ) → List ℕ → Action State (Option ℕ)
  unfolding catalog_entry
  catalog_lookup fuel catalog_root name =
      if catalog_root == 0
      then pure none
      else (search_tree p fuel catalog_root name >>= catalog_entry)

  abbrev pub opened : Session → List ℕ → Option ℕ → Action State (Bucket × Session)
  unfolding store
  opened t name none = raise bucket_not_found
  opened t name (some root) =
      let b : Bucket = record {
        tree = some root;
        orig_root = root;
        created = false;
        dropped = false;
      } in
      pure (b, record t { buckets = store name b t.buckets })

  unfoldable pub lookup_bucket : ℕ → Session → List ℕ → Action State (Bucket × Session)
  unfolding find store catalog_lookup opened
  lookup_bucket fuel t name = elim (find name t.buckets) [
    | some b ↦ if b.dropped then raise bucket_not_found else pure (b, t)
    | none ↦ catalog_lookup fuel t.catalog_root name >>= opened t name
  ]

  unfoldable pub open_bucket : ℕ → Session → List ℕ → Action State (Bucket × Session)
  unfolding lookup_bucket
  open_bucket fuel t name = if t.closed then raise txn_closed else lookup_bucket fuel t name

  -- A name that is not cached: it must not be in the catalog.
  abbrev pub create_new : Session → List ℕ → Option ℕ → Action State (Bucket × Session)
  unfolding store
  create_new t name (some root) = raise bucket_exists
  create_new t name none =
      let b : Bucket = record { tree = some 0; orig_root = 0; created = true; dropped = false } in
      pure (b, record t { buckets = store name b t.buckets })

  -- A name that was dropped in this transaction gets a new tree.
  abbrev pub recreate : Session → List ℕ → Bucket → Action State (Bucket × Session)
  unfolding store
  recreate t name old =
      let b : Bucket = record old { tree = some 0; created = true; dropped = false } in
      if old.dropped
      then pure (b, record t { buckets = store name b t.buckets })
      else raise bucket_exists

  abbrev pub create_named : ℕ → Session → List ℕ → Action State (Bucket × Session)
  unfolding find catalog_lookup create_new recreate store
  create_named fuel t name = elim (find name t.buckets) [
    | some old ↦ recreate t name old
    | none ↦ catalog_lookup fuel t.catalog_root name >>= create_new t name
  ]

  unfoldable pub create_bucket : ℕ → Session → List ℕ → Action State (Bucket × Session)
  unfolding create_named find catalog_lookup store
  create_bucket fuel t name =
      if not t.writable
      then raise txn_read_only
      else (if t.closed then raise txn_closed else create_named fuel t name)

  abbrev pub drop_named : ℕ → Session → List ℕ → Action State Session
  unfolding lookup_bucket store
  drop_named fuel t name = do
    (b, t') ← lookup_bucket fuel t name
    root ← elim b.tree [ some r ↦ pure r | none ↦ lift panic ]
    free_subtree p fuel root
    pure (record t' { buckets = store name (record b { tree = none; dropped = true }) t'.buckets })

  unfoldable pub drop_bucket : ℕ → Session → List ℕ → Action State Session
  unfolding drop_named lookup_bucket store
  drop_bucket fuel t name =
      if not t.writable
      then raise txn_read_only
      else (if t.closed then raise txn_closed else drop_named fuel t name)

  -- What one bucket changes of the catalog, which is the tree `catalog`.
  unfoldable pub apply_change : ℕ → (catalog : ℕ) → List ℕ × Bucket → Action State ℕ
  unfolding root_bytes
  apply_change fuel catalog (name, b) =
      let remove : Action State ℕ =
        if b.orig_root == 0
        then pure catalog
        else (delete_tree p fuel catalog name >>= λ (root, found). pure root) in
      let save : Action State ℕ = elim b.tree [
        | none ↦ lift panic
        | some root ↦
            if b.created || not (root == b.orig_root)
            then update_tree p fuel catalog name (root_bytes root) upsert
            else pure catalog
      ] in
      if b.dropped then remove else save

  -- The loop over the map, in the order in which the list has it.
  unfoldable pub apply_changes : ℕ → (catalog : ℕ) → Buckets → Action State ℕ
  unfolding apply_change
  apply_changes fuel catalog [] = pure catalog
  apply_changes fuel catalog (b ∷ bs) =
      apply_change fuel catalog b >>= λ catalog'. apply_changes fuel catalog' bs

  -- applyBucketChanges: the new root of the catalog.
  unfoldable pub apply_bucket_changes : ℕ → Session → Action State Session
  unfolding apply_changes
  apply_bucket_changes fuel t = do
    catalog ← apply_changes fuel t.catalog_root t.buckets
    pure (record t { catalog_root = catalog })
