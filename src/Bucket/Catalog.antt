-- ===== src/Bucket/Catalog.antt =====
-- The catalog's entries, and what a commit writes to it.
use frostfire.Prelude.{ℕ, zero, suc, ◌+◌, ◌^◌, ◌<◌, ◌≡◌, refl, some, ok}
use frostfire.Bytes.{Bytes, put_le, get_le, slice}
use frostfire.Bytes.Codec.{get_le-put_le, length-slice}
use frostfire.BTree.Pages.{Pages}
use frostfire.Bucket.Defs.{le_value, root_bytes, catalog_entry}

le_value-slice : (n : ℕ) (d : Bytes) (p : ℕ) → le_value (slice n d p) ≡ get_le n d p
unfolding le_value slice get_le
le_value-slice zero d p = refl
le_value-slice (suc n) d p = rw (le_value-slice n d (p + 1)) refl

module _ (p : Pages) where
  open p use {State}

  -- The entry that a commit writes for a root below 2^64 is looked up as that root.
  pub catalog_entry-root_bytes :
      (root : ℕ) (s : State)
      → root < 2 ^ 64
      → catalog_entry p (some (root_bytes root)) s ≡ some (ok (some root), s)
  unfolding catalog_entry root_bytes
  catalog_entry-root_bytes root s h =
      rw
        (
          length-slice 8 (put_le 8 (λ i. 0) 0 root) 0,
          le_value-slice 8 (put_le 8 (λ i. 0) 0 root) 0,
          get_le-put_le 8 (λ i. 0) 0 root h,
        )
        refl
