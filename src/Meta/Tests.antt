-- ===== src/Meta/Tests.antt =====
-- Runs of the meta page's codec and recovery, with a byte sum in the place of CRC64.
use frostfire.Prelude.{
  ℕ, ◌+◌, ◌%◌, ◌^◌, ◌<◌, ◌≤◌, ◌-◌, ◌≡◌, refl, List, [], ◌∷◌, inl, inr, arith, true, false, ok,
  ◌>>=◌, ◌⊎◌,
}
use frostfire.Bytes.{Bytes, put_le, write, get_le, slice, page_size}
use frostfire.Meta.{
  Meta, Checksum, encode_fields, meta_magic, encode, decode, decode_fields, is_newer,
  next_meta_page, meta_page0, meta_page1, meta_size, meta_version,
}
use frostfire.Meta.Roundtrip.{
  IsHeader, decode-encode, decode-page_of, decode_sound, page_of, sum_of,
}
use frostfire.Meta.Torn.{cut_off, IsTorn, cut_off-reload}
use frostfire.Meta.Recovery.{
  is_newer-window, load_meta-newest, commit-found, set_page, reload, beats, Pages,
}

pub byte_sum : List ℕ → ℕ
byte_sum [] = 0
byte_sum (b ∷ bs) = (b + byte_sum bs) % 2 ^ 64

pub byte_sum_lt : (bs : List ℕ) → byte_sum bs < 2 ^ 64
unfolding byte_sum
byte_sum_lt [] = omega arith
byte_sum_lt (b ∷ bs) = omega arith

abbrev pub summed : Checksum
summed = record { sum = byte_sum; sum_lt = byte_sum_lt }

abbrev zeros : Bytes
zeros = λ p. 0

abbrev pub header_at : ℕ → Meta
header_at id = record {
  magic = meta_magic;
  version = 1;
  page_bytes = 4096;
  txn_id = id;
  catalog_root = 9;
  freelist_root = 12;
  num_pages = 40;
  checksum = 0;
}

pub header_at-IsHeader : (id : ℕ) → id < 2 ^ 64 → IsHeader (header_at id)
header_at-IsHeader id h = omega arith

decode-encode_example :
    (encode summed (header_at 7) 4096 zeros >>= λ r. decode summed 4096 r.0)
    ≡ (encode summed (header_at 7) 4096 zeros >>= λ r. ok r.1)
decode-encode_example =
    decode-encode summed (header_at 7) 4096 zeros (header_at-IsHeader 7 (omega arith)) (omega arith)

abbrev pub header_page : ℕ → Bytes
header_page id = page_of summed (header_at id) zeros

abbrev pub stored : ℕ → Meta
stored id = record (header_at id) { checksum = sum_of summed (header_at id) zeros }

pub decode-header_page :
    (id : ℕ) → id < 2 ^ 64 → decode summed page_size (header_page id) ≡ ok (stored id)
decode-header_page id h =
    decode-page_of summed (header_at id) page_size zeros (header_at-IsHeader id h) (omega arith)

decode_sound_example :
    (meta_size ≤ page_size)
    × (get_le 8 (header_page 7) 48 ≡ byte_sum (slice 48 (header_page 7) 0))
    × (stored 7 ≡ decode_fields (header_page 7) (byte_sum (slice 48 (header_page 7) 0)))
    × ((stored 7).magic ≡ meta_magic)
    × ((stored 7).version ≡ meta_version)
    × ((stored 7).page_bytes ≡ page_size)
decode_sound_example =
    decode_sound summed page_size (header_page 7) (decode-header_page 7 (omega arith))

-- The counter wraps from 2^64 - 1 to 0.
is_newer-window_wraps : (is_newer 0 (2 ^ 64 - 1) ≡ true) × (is_newer (2 ^ 64 - 1) 0 ≡ false)
is_newer-window_wraps = is_newer-window (2 ^ 64 - 1) 1 (omega arith) (omega arith) (omega arith)

-- Page 1 holds the header of transaction 7, page 0 an older one.
abbrev pages : Pages
pages = set_page (λ p. header_page 6) 1 (header_page 7)

pages_found : reload summed pages ≡ ok (stored 7, 1)
unfolding next_meta_page
pages_found =
    commit-found summed (λ p. header_page 6) (stored 6) (header_at 7) 0 zeros (inl refl)
      (decode-header_page 6 (omega arith)) (omega arith) (header_at-IsHeader 7 (omega arith)) refl

-- Header 8 over header 6, cut off behind the fourth byte of the transaction id.
cut_off_20 : IsTorn summed (cut_off 20 (header_page 8) (header_page 6))
unfolding get_le slice byte_sum put_le write encode_fields
cut_off_20 = omega arith

cut_off-reload_example :
    reload summed (set_page pages 0 (cut_off 20 (header_page 8) (header_page 6))) ≡ ok (stored 7, 1)
unfolding next_meta_page
cut_off-reload_example =
    cut_off-reload summed pages (stored 7) (header_at 8) 1 zeros 20 pages_found (omega arith)
      (header_at-IsHeader 8 (omega arith)) refl (λ some_byte part. cut_off_20)

commit-found_example : reload summed (set_page pages 0 (header_page 8)) ≡ ok (stored 8, 0)
unfolding next_meta_page
commit-found_example =
    commit-found summed pages (stored 7) (header_at 8) 1 zeros (inr refl)
      (decode-header_page 7 (omega arith)) (omega arith) (header_at-IsHeader 8 (omega arith)) refl

reloaded : reload summed (set_page pages 0 (header_page 8)) ≡ ok (stored 8, 0)
unfolding next_meta_page
reloaded =
    commit-found summed pages (stored 7) (header_at 8) 1 zeros (inr refl)
      (decode-header_page 7 (omega arith)) (omega arith) (header_at-IsHeader 8 (omega arith)) refl

load_meta-newest_example :
    ((meta_page0 ≡ meta_page0) ⊎ (meta_page0 ≡ meta_page1))
    × (decode summed page_size (header_page 8) ≡ ok (stored 8))
    × (beats (decode summed page_size (header_page 7)) (stored 8) ≡ false)
unfolding next_meta_page
load_meta-newest_example = load_meta-newest summed (set_page pages 0 (header_page 8)) reloaded
