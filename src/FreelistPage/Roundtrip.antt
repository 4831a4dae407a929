-- ===== src/FreelistPage/Roundtrip.antt =====
-- What `encode_freelist_page` writes, `decode_freelist_page` reads, inside the page.
use frostfire.Prelude.{
  ℕ, ◌+◌, ◌*◌, ◌%◌, ◌^◌, ◌≤◌, ◌<◌, ◌≡◌, refl, ap₂, ◌∙◌, inl, inr, List, [], ◌∷◌, arith, All, length,
  Bool-cases, le→ltb, lt→ltb, ltb, ok, panic, ◌>>=◌,
}
use frostfire.Bytes.{Bytes, page_size, put_le, get_le}
use frostfire.Bytes.Codec.{put_le_ne, get_le-put_le, get_le-put_le_ne, get_le-ext, Apart}
use frostfire.FreelistPage.{
  freelist_page_header, freelist_per_page, put_ids, get_ids, encode_freelist_page,
  decode_freelist_page, freelist_page_next,
}

-- The page ids are `uint64` values.
abbrev pub AreIds : List ℕ → Type 0
AreIds ids = All (λ id. id < 2 ^ 64) ids

-- The loop writes the bytes of its ids only.
put_ids_ne :
    (ids : List ℕ) (buf : Bytes) (i p : ℕ)
    → Apart (freelist_page_header + i * 8) (length ids * 8) p 1
    → put_ids buf i ids p ≡ buf p
unfolding put_ids
put_ids_ne [] buf i p h = refl
put_ids_ne (id ∷ ids) buf i p h =
    put_ids_ne ids (put_le 8 buf (freelist_page_header + i * 8) id) (i + 1) p (omega arith)
    ∙ put_le_ne 8 buf (freelist_page_header + i * 8) id p (omega arith)

get_ids-put_ids :
    (ids : List ℕ) (buf : Bytes) (i : ℕ)
    → AreIds ids
    → get_ids (put_ids buf i ids) i (length ids) ≡ ids
unfolding get_ids put_ids
get_ids-put_ids [] buf i h = refl
get_ids-put_ids (id ∷ ids) buf i h =
    ap₂ ◌∷◌
      (get_le-ext 8 (put_ids (put_le 8 buf pos id) (i + 1) ids) (put_le 8 buf pos id) pos
          (λ q lo hi. put_ids_ne ids (put_le 8 buf pos id) (i + 1) q (omega arith))
        ∙ get_le-put_le 8 buf pos id h.0)
      (get_ids-put_ids ids (put_le 8 buf pos id) (i + 1) h.1)
  where
    pos : ℕ
    pos = freelist_page_header + i * 8

module _ (buf : Bytes) (ids : List ℕ) (next : ℕ) where
  header : Bytes
  header = put_le 4 (put_le 4 (put_le 8 buf 0 next) 8 (length ids % 2 ^ 32)) 12 0

  -- The header lies before the ids.
  get_le-put_ids :
      (n p : ℕ)
      → p + n ≤ freelist_page_header
      → get_le n (put_ids header 0 ids) p ≡ get_le n header p
  get_le-put_ids n p h =
      get_le-ext n (put_ids header 0 ids) header p
        λ q lo hi. put_ids_ne ids header 0 q (omega arith)

  next_lem : next < 2 ^ 64 → get_le 8 (put_ids header 0 ids) 0 ≡ next
  unfolding header
  next_lem h =
      get_le-put_ids 8 0 (omega arith)
      ∙ get_le-put_le_ne 8 4 _ 12 0 0 (omega arith)
      ∙ get_le-put_le_ne 8 4 _ 8 (length ids % 2 ^ 32) 0 (omega arith)
      ∙ get_le-put_le 8 buf 0 next h

  count_lem : length ids ≤ freelist_per_page → get_le 4 (put_ids header 0 ids) 8 ≡ length ids
  unfolding header
  count_lem h =
      get_le-put_ids 4 8 (omega arith)
      ∙ get_le-put_le_ne 4 4 _ 12 0 8 (omega arith)
      ∙ get_le-put_le 4 _ 8 (length ids % 2 ^ 32) (omega arith)
      ∙ omega arith

  -- A page that is written with at most 510 ids of 64 bits and a next page of 64 bits is read back:
  -- the ids in order, and the next page, which the short accessor reads too.
  pub decode-encode_freelist_page :
      length ids ≤ freelist_per_page
      → AreIds ids
      → next < 2 ^ 64
      → ((encode_freelist_page buf ids next >>= decode_freelist_page page_size) ≡ ok (ids, next))
        × ((encode_freelist_page buf ids next >>= λ page. ok (freelist_page_next page)) ≡ ok next)
  unfolding encode_freelist_page decode_freelist_page header freelist_page_next
  decode-encode_freelist_page fits small h = (
    rw (
      le→ltb freelist_per_page (length ids) fits,
      count_lem fits,
      le→ltb freelist_per_page (length ids) fits,
      next_lem h,
      get_ids-put_ids ids header 0 small,
    ),
    rw (le→ltb freelist_per_page (length ids) fits, next_lem h),
  )

  -- If the encoding succeeds, the header and the ids lie inside the page, and every byte behind them
  -- is as before.
  pub encode_freelist_page_bounds :
      {page : Bytes}
      → encode_freelist_page buf ids next ≡ ok page
      → (p : ℕ) → freelist_page_header + length ids * 8 ≤ p
      → (freelist_page_header + length ids * 8 ≤ page_size) × (page p ≡ buf p)
  unfolding encode_freelist_page header
  encode_freelist_page_bounds {page} e p h =
      elim (Bool-cases (ltb freelist_per_page (length ids))) [
        | inl many ↦ ground arith
        | inr few ↦ (ground arith, ground (arith, same))
      ]
    where
      same : put_ids header 0 ids p ≡ buf p
      same =
          put_ids_ne ids header 0 p (omega arith)
          ∙ put_le_ne 4 _ 12 0 p (omega arith)
          ∙ put_le_ne 4 _ 8 (length ids % 2 ^ 32) p (omega arith)
          ∙ put_le_ne 8 buf 0 next p (omega arith)

  -- One id too many panics, whatever the page held.
  pub encode_freelist_page_full :
      freelist_per_page < length ids → encode_freelist_page buf ids next ≡ panic
  unfolding encode_freelist_page
  encode_freelist_page_full h = rw (lt→ltb freelist_per_page (length ids) h)
