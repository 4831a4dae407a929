-- ===== src/FreelistPage/Tests.antt =====
-- Runs of the freelist page's codec.
use frostfire.Prelude.{ℕ, ◌+◌, ◌*◌, ◌≤◌, ◌≡◌, refl, List, [], ◌∷◌, arith, ok, ◌>>=◌}
use frostfire.Bytes.{Bytes, page_size, put_le}
use frostfire.FreelistPage.{
  encode_freelist_page, decode_freelist_page, freelist_page_next, freelist_page_header, put_ids,
}
use frostfire.FreelistPage.Roundtrip.{decode-encode_freelist_page, encode_freelist_page_bounds}

-- A page that held other bytes before.
abbrev stale : Bytes
stale = λ p. 255

abbrev ids : List ℕ
ids = 7 ∷ 300 ∷ 65536 ∷ []

decode-encode_freelist_page_example :
    ((encode_freelist_page stale ids 12 >>= decode_freelist_page page_size) ≡ ok (ids, 12))
    × ((encode_freelist_page stale ids 12 >>= λ page. ok (freelist_page_next page)) ≡ ok 12)
decode-encode_freelist_page_example =
    decode-encode_freelist_page stale ids 12 (omega arith) (omega arith) (omega arith)

abbrev encoded : Bytes
encoded = put_ids (put_le 4 (put_le 4 (put_le 8 stale 0 12) 8 3) 12 0) 0 ids

encoded_lem : encode_freelist_page stale ids 12 ≡ ok encoded
unfolding encode_freelist_page
encoded_lem = refl

encode_freelist_page_bounds_at_40 : (freelist_page_header + 3 * 8 ≤ page_size) × (encoded 40 ≡ 255)
encode_freelist_page_bounds_at_40 =
    encode_freelist_page_bounds stale ids 12 encoded_lem 40 (omega arith)
