-- ===== src/Bucket/Dropped.antt =====
-- What a bucket that was dropped is to later calls in the same transaction.
-- gives.
use frostfire.Prelude.{
  subst, ℕ, ◌≡◌, refl, sym, ◌∙◌, true, false, not, List, if◌then◌else◌, Option, none, some, err,
  panic, bucket_not_found, txn_read_only, txn_closed,
}
use frostfire.BTree.Pages.{Pages}
use frostfire.BTree.Action.{Action, pure, raise, lift, ◌>>=◌, ◌>>◌}
use frostfire.BTree.Lookup.{free_subtree}
use frostfire.Bucket.Defs.{
  Bucket, Session, find, store, catalog_lookup, lookup_bucket, open_bucket, opened, drop_named,
  drop_bucket,
}
use frostfire.Bucket.Cache.{find-store, OnSuccess, OnSuccess-follow, Anything, any_run}

module _ (p : Pages) (fuel : ℕ) (name : List ℕ) where
  open p use {State}

  Refuses : Session → State → Type 0
  Refuses t s = open_bucket p fuel t name s ≡ some (err bucket_not_found, s)

  store-Refuses :
      (t : Session) (b : Bucket) (s : State)
      → t.closed ≡ false
      → b.dropped ≡ true
      → Refuses (record t { buckets = store name b t.buckets }) s
  unfolding Refuses open_bucket lookup_bucket
  store-Refuses t b s unclosed gone =
      let t' : Session = record t { buckets = store name b t.buckets } in
      subst
        (λ c.
          (if c then raise txn_closed else lookup_bucket p fuel t' name) s
          ≡ some (err bucket_not_found, s))
        (sym unclosed)
        (rw (lookup_bucket, find-store name b t.buckets)
          (subst
            (λ d.
              (if d then raise {A = Bucket × Session} bucket_not_found else pure (b, t')) s
              ≡ some (err bucket_not_found, s))
            (sym gone) refl))

  lookup_bucket-closed :
      (t : Session) (s : State)
      → OnSuccess (λ (b, t') s'. t'.closed ≡ t.closed) (lookup_bucket p fuel t name s)
  unfolding lookup_bucket store find catalog_lookup
  lookup_bucket-closed t s =
      elim (find name t.buckets)
        as (λ b.
          OnSuccess (λ (b, t') s'. t'.closed ≡ t.closed)
            (elim b as (λ x. Action State (Bucket × Session)) [
              | some b ↦ if b.dropped then raise bucket_not_found else pure (b, t)
              | none ↦ catalog_lookup p fuel t.catalog_root name >>= opened p t name
            ]
              s)) [
                | some b ↦
                    elim b.dropped
                      as (λ d.
                        OnSuccess (λ (b, t') s'. t'.closed ≡ t.closed)
                          ((if d then raise bucket_not_found else pure (b, t)) s)) [
                            | true ↦ tt
                            | false ↦ refl
                          ]
                | none ↦
                    OnSuccess-follow Anything (λ (b, t') s'. t'.closed ≡ t.closed)
                      (catalog_lookup p fuel t.catalog_root name s) (opened p t name)
                      (any_run (catalog_lookup p fuel t.catalog_root name s))
                      (λ root s' known. found root s')
              ]
    where
      found :
          (root : Option ℕ) (s' : State)
          → OnSuccess (λ (b, t') s'. t'.closed ≡ t.closed) (opened p t name root s')
      found none s' = tt
      found (some root) s' = refl

  drop_named-Refuses :
      (t : Session) (s : State) → t.closed ≡ false → OnSuccess Refuses (drop_named p fuel t name s)
  unfolding lookup_bucket store
  drop_named-Refuses t s unclosed =
      OnSuccess-follow (λ (b, t') s'. t'.closed ≡ t.closed) Refuses (lookup_bucket p fuel t name s)
        _ (lookup_bucket-closed t s) λ (b, t') s' same. drop_tree b t' s' (same ∙ unclosed)
    where
      drop_tree :
          (b : Bucket) (t' : Session) (s' : State)
          → t'.closed ≡ false
          → OnSuccess Refuses (
              (elim b.tree [ some r ↦ pure r | none ↦ lift panic ] >>= λ root.
              free_subtree p fuel root
              >> pure (record t' {
                buckets = store name (record b { tree = none; dropped = true }) t'.buckets;
              }))
                s')
      drop_tree b t' s' unclosed' =
          elim b.tree
            as (λ o. OnSuccess Refuses (
              (elim o as (λ x. Action State ℕ) [ some r ↦ pure r | none ↦ lift panic ] >>= λ root.
              free_subtree p fuel root
              >> pure (record t' {
                buckets = store name (record b { tree = none; dropped = true }) t'.buckets;
              }))
                s')) [
                  | some r ↦
                      OnSuccess-follow Anything Refuses (free_subtree p fuel r s') _
                        (any_run (free_subtree p fuel r s'))
                        λ done s'' known.
                          store-Refuses t' (record b { tree = none; dropped = true }) s'' unclosed'
                            refl
                  | none ↦ tt
                ]

  -- After DropBucket, Bucket does not find the name, and says so without a look at the catalog, which
  -- still has the entry until the commit.
  pub drop_bucket-Refuses :
      (t : Session) (s : State)
      → OnSuccess
          (λ t' s'. open_bucket p fuel t' name s' ≡ some (err bucket_not_found, s'))
          (drop_bucket p fuel t name s)
  unfolding drop_bucket Refuses lookup_bucket store
  drop_bucket-Refuses t s =
      elim t.writable
        as (λ w. OnSuccess Refuses (
          (if not w
              then raise txn_read_only
              else (if t.closed then raise txn_closed else drop_named p fuel t name))
            s)) [
              | true ↦
                  elim t.closed
                      as (λ c.
                        t.closed ≡ c
                        → OnSuccess Refuses
                            ((if c then raise txn_closed else drop_named p fuel t name) s)) [
                              | true ↦ λ e. tt
                              | false ↦ λ e. drop_named-Refuses t s e
                            ]
                    refl
              | false ↦ tt
            ]
