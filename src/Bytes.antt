-- ===== src/Bytes.antt =====
-- Page buffers and the little-endian codecs of encoding/binary that bnode.go, meta.go and
-- freelist_page.go call. A buffer is its bytes by index.
pub mod Codec
use frostfire.Prelude.{ℕ, zero, suc, ◌+◌, ◌*◌, ◌/◌, ◌%◌, List, [], ◌∷◌, ◌==◌, if◌then◌else◌}

abbrev pub Bytes : Type 0
Bytes = ℕ → ℕ

-- `PageSize` of storage.go
abbrev pub page_size : ℕ
page_size = 4096

-- `buf[p] = b`
unfoldable pub write : Bytes → ℕ → ℕ → Bytes
write d p b = λ q. if q == p then b else d q

-- `PutUint16`, `PutUint32` and `PutUint64` at `p`, for `n` of 2, 4 and 8.
unfoldable pub put_le : ℕ → Bytes → ℕ → ℕ → Bytes
put_le zero d p v = d
put_le (suc n) d p v = put_le n (write d p (v % 256)) (p + 1) (v / 256)

-- `Uint16`, `Uint32` and `Uint64` at `p`.
unfoldable pub get_le : ℕ → Bytes → ℕ → ℕ
get_le zero d p = 0
get_le (suc n) d p = d p + 256 * get_le n d (p + 1)

-- `buf[p : p+n]`
unfoldable pub slice : ℕ → Bytes → ℕ → List ℕ
slice zero d p = []
slice (suc n) d p = d p ∷ slice n d (p + 1)

-- `copy(buf[p:], bytes)` where the bytes fit.
unfoldable pub put_bytes : Bytes → ℕ → List ℕ → Bytes
put_bytes d p [] = d
put_bytes d p (b ∷ bs) = put_bytes (write d p b) (p + 1) bs

-- Several integers written one after the other: width, offset and value of each.
unfoldable pub put_all : List (ℕ × ℕ × ℕ) → Bytes → Bytes
put_all [] d = d
put_all ((n, p, v) ∷ ws) d = put_all ws (put_le n d p v)
