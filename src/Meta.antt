-- ===== src/Meta.antt =====
-- meta.go: the database header, its page format, and the choice between the two meta pages.
-- The CRC64 of hash/crc64 is a parameter.
pub mod Roundtrip
pub mod Recovery
pub mod Torn
pub mod Tests
use frostfire.Prelude.{
  ℕ, ◌+◌, ◌-◌, ◌%◌, ◌^◌, ◌<◌, Bool, List, not, ◌&&◌, ltb, ◌==◌, if◌then◌else◌, Result, ok, err,
  panic, buffer_too_small, checksum_mismatch, bad_magic, unsupported_version, page_size_mismatch,
  meta_corrupt,
}
use frostfire.Bytes.{Bytes, page_size, put_le, get_le, slice}

-- "FIRE"
abbrev pub meta_magic : ℕ
meta_magic = 0x46495245

abbrev pub meta_version : ℕ
meta_version = 1

abbrev pub meta_page0 : ℕ
meta_page0 = 0

abbrev pub meta_page1 : ℕ
meta_page1 = 1

abbrev pub meta_size : ℕ
meta_size = 56

abbrev pub meta_chk_start : ℕ
meta_chk_start = 48

pub record Meta : Type 0 where
  pub magic : ℕ
  pub version : ℕ
  pub page_bytes : ℕ
  pub txn_id : ℕ
  pub catalog_root : ℕ
  pub freelist_root : ℕ
  pub num_pages : ℕ
  pub checksum : ℕ

-- `crc64.Checksum(data, crcTable)`, a `uint64`.
pub record Checksum : Type 0 where
  pub sum : List ℕ → ℕ
  pub sum_lt : (bytes : List ℕ) → sum bytes < 2 ^ 64

-- The bytes 0 to 47, before the checksum is taken.
unfoldable pub encode_fields : Meta → Bytes → Bytes
encode_fields m buf =
    put_le 8
      (put_le 8
        (put_le 8
          (put_le 8
            (put_le 4 (put_le 4 (put_le 4 (put_le 4 buf 0 m.magic) 4 m.version) 8 m.page_bytes) 12
              0)
            16 m.txn_id)
          24 m.catalog_root)
        32 m.freelist_root)
      40 m.num_pages

-- isNewer: `int64(a-b) > 0` on `uint64` values.
unfoldable pub is_newer : ℕ → ℕ → Bool
is_newer a b = let diff = (a + 2 ^ 64 - b) % 2 ^ 64 in ltb 0 diff && ltb diff (2 ^ 63)

unfoldable pub decode_fields : Bytes → ℕ → Meta
decode_fields buf sum = record {
  magic = get_le 4 buf 0;
  version = get_le 4 buf 4;
  page_bytes = get_le 4 buf 8;
  txn_id = get_le 8 buf 16;
  catalog_root = get_le 8 buf 24;
  freelist_root = get_le 8 buf 32;
  num_pages = get_le 8 buf 40;
  checksum = sum;
}

-- The tests of decodeMeta after the checksum.
unfoldable pub check_header : Meta → Result Meta
check_header m =
    if not (m.magic == meta_magic)
    then err bad_magic
    else (if not (m.version == meta_version)
        then err unsupported_version
        else (if not (m.page_bytes == page_size) then err page_size_mismatch else ok m))

module _ (crc : Checksum) where
  -- The buffer of `len` bytes after the call, and the header with its checksum set.
  unfoldable pub encode : Meta → ℕ → Bytes → Result (Bytes × Meta)
  encode m len buf =
      if ltb len meta_size
      then err buffer_too_small
      else (let fields = encode_fields m buf in
          let sum = crc.sum (slice meta_chk_start fields 0) in
          ok (put_le 8 fields 48 sum, record m { checksum = sum }))

  -- decodeMeta, on a buffer of `len` bytes.
  unfoldable pub decode : ℕ → Bytes → Result Meta
  decode len buf =
      if ltb len meta_size
      then err buffer_too_small
      else (let want = crc.sum (slice meta_chk_start buf 0) in
          if not (get_le 8 buf 48 == want)
          then err checksum_mismatch
          else check_header (decode_fields buf want))

-- The switch of loadMeta, on what the two pages gave.
unfoldable pub choose_meta : Result Meta → Result Meta → Result (Meta × ℕ)
choose_meta (ok m0) (ok m1) =
    if is_newer m1.txn_id m0.txn_id then ok (m1, meta_page1) else ok (m0, meta_page0)
choose_meta (ok m0) _ = ok (m0, meta_page0)
choose_meta (err _) (ok m1) = ok (m1, meta_page1)
choose_meta (err _) (err _) = err meta_corrupt
choose_meta (err _) panic = panic
choose_meta panic _ = panic

-- nextMetaPage
unfoldable pub next_meta_page : ℕ → ℕ
next_meta_page current = if current == meta_page0 then meta_page1 else meta_page0

module _ (crc : Checksum) where
  -- One page of loadMeta: what the buffer pool's Get returned, decoded.
  unfoldable pub read_meta : Result Bytes → Result Meta
  read_meta (ok buf) = decode crc page_size buf
  read_meta (err e) = err e
  read_meta panic = panic

  -- loadMeta, on what Get returned for pages 0 and 1.
  unfoldable pub load_meta : Result Bytes → Result Bytes → Result (Meta × ℕ)
  unfolding read_meta
  load_meta page0 page1 = choose_meta (read_meta page0) (read_meta page1)
