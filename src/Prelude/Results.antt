-- ===== src/Prelude/Results.antt =====
-- Outcomes of Go code: a value, an `error`, or a panic.
use mathlib.Core.Path.{◌≡◌, refl}

-- The errors that the source returns, each named for its variable or its message.
pub data Error : Type 0 where
  invalid_file_size : Error
  io_error : Error
  buffer_too_small : Error
  checksum_mismatch : Error
  bad_magic : Error
  unsupported_version : Error
  page_size_mismatch : Error
  meta_corrupt : Error
  bad_count : Error
  buffer_exhausted : Error
  invalid_write : Error
  txn_read_only : Error
  txn_closed : Error
  key_exists : Error
  key_not_found : Error
  key_too_big : Error
  btree_not_empty : Error
  bulk_loader_finished : Error
  bulk_loader_key_order : Error
  bucket_not_found : Error
  bucket_exists : Error
  malformed_catalog_entry : Error

pub data Result {ℓ} (A : Type ℓ) : Type ℓ where
  ok : A → Result A
  err : Error → Result A
  panic : Result A

infixl 5 ◌>>=◌
abbrev pub ◌>>=◌ {ℓ κ} : {A : Type ℓ} {B : Type κ} → Result A → (A → Result B) → Result B
ok a >>= f = f a
err e >>= f = err e
panic >>= f = panic

-- A chain that ends well had a first result.
pub bind_ok {ℓ κ} :
    {A : Type ℓ} {B : Type κ} (r : Result A) (f : A → Result B) {b : B}
    → (r >>= f) ≡ ok b
    → (a : A) × (r ≡ ok a) × (f a ≡ ok b)
bind_ok (ok a) f h = (a, refl, h)
bind_ok (err e) f h = cc
bind_ok panic f h = cc

pub ok_injective {ℓ} : {A : Type ℓ} {x y : A} → ok x ≡ ok y → x ≡ y
ok_injective h = cc
