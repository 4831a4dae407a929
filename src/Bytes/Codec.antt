-- ===== src/Bytes/Codec.antt =====
-- Reads and writes of page buffers: a read gives back what was written there, and what was written
-- elsewhere does not change it.
use native.Mathlib.Nat.{pow-suc}
use frostfire.Prelude.{
  ℕ, zero, suc, ◌+◌, ◌*◌, ◌/◌, ◌%◌, ◌^◌, ◌≤◌, ◌<◌, ◌≡◌, refl, ap, ap₂, ◌∙◌, ◌⊎◌, inr, List, [], ◌∷◌,
  arith, length, ◌≢◌,
}
use frostfire.Bytes.{Bytes, write, put_le, get_le, slice, put_bytes, put_all}

pub write_self : (d : Bytes) (p b : ℕ) → write d p b p ≡ b
unfolding write
write_self d p b = ground arith

pub write_ne : (d : Bytes) (p b q : ℕ) → q ≢ p → write d p b q ≡ d q
unfolding write
write_ne d p b q h = ground arith

pub write-agree : (d e : Bytes) (p b q : ℕ) → (q ≢ p → d q ≡ e q) → write d p b q ≡ write e p b q
unfolding write
write-agree d e p b q h = ground arith

-- The ranges `[q, q + m)` and `[p, p + n)` do not meet.
abbrev pub Apart : ℕ → ℕ → ℕ → ℕ → Type 0
Apart q m p n = (q + m ≤ p) ⊎ (p + n ≤ q)

pub put_le_ne : (m : ℕ) (d : Bytes) (q v p : ℕ) → Apart q m p 1 → put_le m d q v p ≡ d p
unfolding put_le
put_le_ne zero d q v p h = refl
put_le_ne (suc m) d q v p h =
    put_le_ne m (write d q (v % 256)) (q + 1) (v / 256) p (omega arith)
    ∙ write_ne d q (v % 256) p (omega arith)

pub get_le-ext :
    (n : ℕ) (d e : Bytes) (p : ℕ)
    → ((q : ℕ) → p ≤ q → q < p + n → d q ≡ e q)
    → get_le n d p ≡ get_le n e p
unfolding get_le
get_le-ext zero d e p h = refl
get_le-ext (suc n) d e p h =
    ap₂ (λ (a b : ℕ). a + 256 * b) (h p (omega arith) (omega arith))
      (get_le-ext n d e (p + 1) λ q lo hi. h q (omega arith) (omega arith))

pub slice-ext :
    (n : ℕ) (d e : Bytes) (p : ℕ)
    → ((q : ℕ) → p ≤ q → q < p + n → d q ≡ e q)
    → slice n d p ≡ slice n e p
unfolding slice
slice-ext zero d e p h = refl
slice-ext (suc n) d e p h =
    ap₂ ◌∷◌ (h p (omega arith) (omega arith))
      (slice-ext n d e (p + 1) λ q lo hi. h q (omega arith) (omega arith))

pub get_le-put_le_ne :
    (n m : ℕ) (d : Bytes) (q v p : ℕ) → Apart q m p n → get_le n (put_le m d q v) p ≡ get_le n d p
get_le-put_le_ne n m d q v p h =
    get_le-ext n (put_le m d q v) d p λ r lo hi. put_le_ne m d q v r (omega arith)

pub slice-put_le_ne :
    (n m : ℕ) (d : Bytes) (q v p : ℕ) → Apart q m p n → slice n (put_le m d q v) p ≡ slice n d p
slice-put_le_ne n m d q v p h =
    slice-ext n (put_le m d q v) d p λ r lo hi. put_le_ne m d q v r (omega arith)

div-lt-pow : (n v : ℕ) → v < 256 ^ suc n → v / 256 < 256 ^ n
div-lt-pow n v h = let e : v < 256 ^ n * 256 = rw pow-suc at h in omega arith

pub get_le-put_le : (n : ℕ) (d : Bytes) (p v : ℕ) → v < 256 ^ n → get_le n (put_le n d p v) p ≡ v
unfolding get_le put_le
get_le-put_le zero d p v h = omega arith
get_le-put_le (suc n) d p v h = omega (
  arith,
  put_le_ne n (write d p (v % 256)) (p + 1) (v / 256) p (inr (omega arith)),
  write_self d p (v % 256),
  get_le-put_le n (write d p (v % 256)) (p + 1) (v / 256) (div-lt-pow n v h),
)

pub put_bytes_ne :
    (bs : List ℕ) (d : Bytes) (q p : ℕ) → Apart q (length bs) p 1 → put_bytes d q bs p ≡ d p
unfolding put_bytes
put_bytes_ne [] d q p h = refl
put_bytes_ne (b ∷ bs) d q p h =
    put_bytes_ne bs (write d q b) (q + 1) p (omega arith) ∙ write_ne d q b p (omega arith)

pub slice-put_bytes :
    (bs : List ℕ) (d : Bytes) (p : ℕ) → slice (length bs) (put_bytes d p bs) p ≡ bs
unfolding put_bytes slice
slice-put_bytes [] d p = refl
slice-put_bytes (b ∷ bs) d p =
    ap₂ ◌∷◌ (put_bytes_ne bs (write d p b) (p + 1) p (omega arith) ∙ write_self d p b)
      (slice-put_bytes bs (write d p b) (p + 1))

-- Every write of the list is apart from the range `[p, p + n)`.
abbrev pub AllApart : List (ℕ × ℕ × ℕ) → ℕ → ℕ → Type 0
AllApart [] p n = Unit {0}
AllApart ((m, q, v) ∷ ws) p n = Apart q m p n × AllApart ws p n

pub get_le-put_all_ne :
    (ws : List (ℕ × ℕ × ℕ)) (d : Bytes) (p n : ℕ)
    → AllApart ws p n
    → get_le n (put_all ws d) p ≡ get_le n d p
unfolding put_all
get_le-put_all_ne [] d p n h = refl
get_le-put_all_ne ((m, q, v) ∷ ws) d p n h =
    get_le-put_all_ne ws (put_le m d q v) p n h.1 ∙ get_le-put_le_ne n m d q v p h.0

-- The value at `p` is the one written there, if the later writes are apart from it.
pub get_le-put_all :
    (ws : List (ℕ × ℕ × ℕ)) (d : Bytes) (p n v : ℕ)
    → v < 256 ^ n
    → AllApart ws p n
    → get_le n (put_all ws (put_le n d p v)) p ≡ v
get_le-put_all ws d p n v small h =
    get_le-put_all_ne ws (put_le n d p v) p n h ∙ get_le-put_le n d p v small

pub length-slice : (n : ℕ) (d : Bytes) (p : ℕ) → length (slice n d p) ≡ n
unfolding slice
length-slice zero d p = refl
length-slice (suc n) d p = ap suc (length-slice n d (p + 1))

-- The same writes to two buffers leave the same byte at `q`, where the buffers agree or the write
-- covers it.
pub put_le-agree :
    (n : ℕ) (d e : Bytes) (p v q : ℕ)
    → (Apart p n q 1 → d q ≡ e q)
    → put_le n d p v q ≡ put_le n e p v q
unfolding put_le
put_le-agree zero d e p v q h = h (omega arith)
put_le-agree (suc n) d e p v q h =
    put_le-agree n (write d p (v % 256)) (write e p (v % 256)) (p + 1) (v / 256) q
      λ out. write-agree d e p (v % 256) q λ ne. h (omega arith)

pub put_bytes-agree :
    (bs : List ℕ) (d e : Bytes) (p q : ℕ) → d q ≡ e q → put_bytes d p bs q ≡ put_bytes e p bs q
unfolding put_bytes
put_bytes-agree [] d e p q h = h
put_bytes-agree (b ∷ bs) d e p q h =
    put_bytes-agree bs (write d p b) (write e p b) (p + 1) q (write-agree d e p b q λ ne. h)
