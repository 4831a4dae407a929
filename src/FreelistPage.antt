-- ===== src/FreelistPage.antt =====
-- freelist_page.go: a page of the persisted freelist. Bytes 0 to 7 hold the next page of the chain,
-- bytes 8 to 11 the number of ids, and the ids stand from byte 16 on, eight bytes each.
pub mod Roundtrip
mod Tests
use frostfire.Prelude.{
  ℕ, zero, suc, ◌+◌, ◌-◌, ◌*◌, ◌/◌, ◌%◌, ◌^◌, List, [], ◌∷◌, ltb, if◌then◌else◌, length, Result, ok,
  err, panic, buffer_too_small, bad_count,
}
use frostfire.Bytes.{Bytes, page_size, put_le, get_le}

abbrev pub freelist_page_header : ℕ
freelist_page_header = 16

-- 510
abbrev pub freelist_per_page : ℕ
freelist_per_page = (page_size - freelist_page_header) / 8

-- The loop of encodeFreelistPage, from index `i` on.
unfoldable pub put_ids : Bytes → ℕ → List ℕ → Bytes
put_ids buf i [] = buf
put_ids buf i (id ∷ ids) = put_ids (put_le 8 buf (freelist_page_header + i * 8) id) (i + 1) ids

-- The buffer is a whole page.
unfoldable pub encode_freelist_page : Bytes → List ℕ → ℕ → Result Bytes
unfolding put_ids
encode_freelist_page buf ids next =
    if ltb freelist_per_page (length ids)
    then panic
    else ok (put_ids (put_le 4 (put_le 4 (put_le 8 buf 0 next) 8 (length ids % 2 ^ 32)) 12 0) 0 ids)

unfoldable pub freelist_page_next : Bytes → ℕ
freelist_page_next buf = get_le 8 buf 0

-- The loop of decodeFreelistPage: `count` ids from index `i` on.
unfoldable pub get_ids : Bytes → ℕ → ℕ → List ℕ
get_ids buf i zero = []
get_ids buf i (suc count) = get_le 8 buf (freelist_page_header + i * 8) ∷ get_ids buf (i + 1) count

-- decodeFreelistPage, on a buffer of `len` bytes.
unfoldable pub decode_freelist_page : ℕ → Bytes → Result (List ℕ × ℕ)
unfolding get_ids
decode_freelist_page len buf =
    if ltb len freelist_page_header
    then err buffer_too_small
    else (let count = get_le 4 buf 8 in
        if ltb freelist_per_page count
        then err bad_count
        else ok (get_ids buf 0 count, get_le 8 buf 0))
