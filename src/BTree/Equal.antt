-- ===== src/BTree/Equal.antt =====
-- `bytes.Equal` of update.go decides whether two byte slices are the same.
use frostfire.Prelude.{ℕ, ◌≡◌, ◌≢◌, refl, true, false, List, arith}
use frostfire.Node.Key.{compare-equal, compare_self}
use frostfire.BTree.Update.{same_bytes}

pub same_bytes_self : (a : List ℕ) → same_bytes a a ≡ true
unfolding same_bytes
same_bytes_self a = rw (same_bytes, compare_self a) refl

pub same_bytes_sound : (a b : List ℕ) → same_bytes a b ≡ true → a ≡ b
unfolding same_bytes
same_bytes_sound a b h = ground (arith, compare-equal a b)

pub same_bytes_ne : (a b : List ℕ) → a ≢ b → same_bytes a b ≡ false
same_bytes_ne a b ne = ground (arith, same_bytes_sound a b)
