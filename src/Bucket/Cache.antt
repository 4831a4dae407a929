-- ===== src/Bucket/Cache.antt =====
-- The buckets that a transaction has opened, created or dropped: what a later call by the same name
-- gives.
use frostfire.Prelude.{
  subst, ℕ, ◌≡◌, refl, sym, true, false, not, List, [], ◌∷◌, if◌then◌else◌, Option, none, some,
  Result, ok, err, panic, bucket_not_found, bucket_exists, txn_read_only, txn_closed,
}
use frostfire.BTree.Pages.{Pages}
use frostfire.BTree.Action.{Action, follow, pure, raise, ◌>>=◌}
use frostfire.BTree.Update.{same_bytes}
use frostfire.BTree.Equal.{same_bytes_self}
use frostfire.Bucket.Defs.{
  Bucket, Buckets, Session, find, store, catalog_lookup, lookup_bucket, open_bucket, create_named,
  create_new, recreate, create_bucket,
}

pub find-store : (name : List ℕ) (b : Bucket) (bs : Buckets) → find name (store name b bs) ≡ some b
unfolding find store
find-store name b [] = rw (same_bytes_self name) refl
find-store name b ((k, c) ∷ bs) =
    elim (same_bytes k name)
        as (λ q.
          same_bytes k name ≡ q
          → find name (if q then (k, b) ∷ bs else (k, c) ∷ store name b bs) ≡ some b) [
            | true ↦ λ e. rw e refl
            | false ↦ λ e. rw e (find-store name b bs)
          ]
      refl

-- Where a run succeeds, `Good` holds of its result and of the state.
abbrev pub OnSuccess : {S A : Type 0} → (A → S → Type 0) → Option (Result A × S) → Type 0
OnSuccess Good (some (ok a, s)) = Good a s
OnSuccess Good (some (err e, s)) = Unit {0}
OnSuccess Good (some (panic, s)) = Unit {0}
OnSuccess Good none = Unit {0}

module _ {S A B : Type 0} where
  pub OnSuccess-follow :
      (Mid : A → S → Type 0) (Good : B → S → Type 0) (r : Option (Result A × S))
      (k : A → Action S B)
      → OnSuccess Mid r
      → ((a : A) (s : S) → Mid a s → OnSuccess Good (k a s))
      → OnSuccess Good (follow r k)
  OnSuccess-follow Mid Good (some (ok a, s)) k h next = next a s h
  OnSuccess-follow Mid Good (some (err e, s)) k h next = tt
  OnSuccess-follow Mid Good (some (panic, s)) k h next = tt
  OnSuccess-follow Mid Good none k h next = tt

-- Of a run of which nothing is known.
abbrev pub Anything : {S A : Type 0} → A → S → Type 0
Anything a s = Unit {0}

pub any_run : {S A : Type 0} (r : Option (Result A × S)) → OnSuccess Anything r
any_run (some (ok a, s)) = tt
any_run (some (err e, s)) = tt
any_run (some (panic, s)) = tt
any_run none = tt

module _ (p : Pages) (fuel : ℕ) (name : List ℕ) where
  open p use {State}

  Opens : Bucket × Session → State → Type 0
  Opens (b, t) s = open_bucket p fuel t name s ≡ some (ok (b, t), s)

  store-Opens :
      (t : Session) (b : Bucket) (s : State)
      → t.closed ≡ false
      → b.dropped ≡ false
      → Opens (b, record t { buckets = store name b t.buckets }) s
  unfolding Opens open_bucket lookup_bucket
  store-Opens t b s unclosed alive =
      let t' : Session = record t { buckets = store name b t.buckets } in
      subst
        (λ c.
          (if c then raise txn_closed else lookup_bucket p fuel t' name) s ≡ some (ok (b, t'), s))
        (sym unclosed)
        (rw (lookup_bucket, find-store name b t.buckets)
          (subst
            (λ d.
              (if d then raise {A = Bucket × Session} bucket_not_found else pure (b, t')) s
              ≡ some (ok (b, t'), s))
            (sym alive) refl))

  create_named-Opens :
      (t : Session) (s : State) → t.closed ≡ false → OnSuccess Opens (create_named p fuel t name s)
  unfolding catalog_lookup find store
  create_named-Opens t s unclosed =
      elim (find name t.buckets)
        as (λ b. OnSuccess Opens (
          elim b as (λ x. Action State (Bucket × Session)) [
            | some old ↦ recreate p t name old
            | none ↦ catalog_lookup p fuel t.catalog_root name >>= create_new p t name
          ]
            s)) [
              | some old ↦
                  elim old.dropped
                    as (λ d. OnSuccess Opens (
                      (if d
                          then pure (
                            record old { tree = some 0; created = true; dropped = false },
                            record t {
                              buckets =
                                  store name
                                    (record old { tree = some 0; created = true; dropped = false })
                                    t.buckets;
                            },
                          )
                          else raise bucket_exists)
                        s)) [
                          | true ↦
                              store-Opens t
                                (record old { tree = some 0; created = true; dropped = false }) s
                                unclosed refl
                          | false ↦ tt
                        ]
              | none ↦
                  OnSuccess-follow Anything Opens (catalog_lookup p fuel t.catalog_root name s)
                    (create_new p t name) (any_run (catalog_lookup p fuel t.catalog_root name s))
                    (λ root s' known. new root s')
            ]
    where
      new : (root : Option ℕ) (s' : State) → OnSuccess Opens (create_new p t name root s')
      new (some root) s' = tt
      new none s' =
          store-Opens t (record { tree = some 0; orig_root = 0; created = true; dropped = false })
            s' unclosed refl

  -- The bucket that CreateBucket returns is the one that Bucket returns for that name afterwards,
  -- without a look at the catalog: the transaction and the store stay as they are.
  pub create_bucket-Opens :
      (t : Session) (s : State)
      → OnSuccess
          (λ (b, t') s'. open_bucket p fuel t' name s' ≡ some (ok (b, t'), s'))
          (create_bucket p fuel t name s)
  unfolding create_bucket Opens find catalog_lookup store
  create_bucket-Opens t s =
      elim t.writable
        as (λ w. OnSuccess Opens (
          (if not w
              then raise txn_read_only
              else (if t.closed then raise txn_closed else create_named p fuel t name))
            s)) [
              | true ↦
                  elim t.closed
                      as (λ c.
                        t.closed ≡ c
                        → OnSuccess Opens
                            ((if c then raise txn_closed else create_named p fuel t name) s)) [
                              | true ↦ λ e. tt
                              | false ↦ λ e. create_named-Opens t s e
                            ]
                    refl
              | false ↦ tt
            ]
