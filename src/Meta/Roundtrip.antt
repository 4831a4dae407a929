-- ===== src/Meta/Roundtrip.antt =====
-- The codec of the meta page: what `encode` writes, `decode` reads, and nothing else is accepted.
use frostfire.Prelude.{
  ℕ, ◌^◌, ◌≤◌, ◌<◌, ◌≡◌, List, [], ◌∷◌, arith, le→ltb, ==-refl, ok, ◌>>=◌, drop, take,
}
use frostfire.Bytes.{Bytes, page_size, put_le, get_le, slice, put_all}
use frostfire.Bytes.Codec.{get_le-put_all, get_le-put_le, get_le-put_le_ne, slice-put_le_ne}
use frostfire.Meta.{
  Meta, Checksum, meta_magic, meta_version, meta_size, encode_fields, encode, decode, decode_fields,
  check_header,
}

-- The fields fit the integers that carry them, and the header is one that this version writes.
pub record IsHeader (m : Meta) : Type 0 where
  pub magic : m.magic ≡ meta_magic
  pub version : m.version ≡ meta_version
  pub page_bytes : m.page_bytes ≡ page_size
  pub txn_id : m.txn_id < 2 ^ 64
  pub catalog_root : m.catalog_root < 2 ^ 64
  pub freelist_root : m.freelist_root < 2 ^ 64
  pub num_pages : m.num_pages < 2 ^ 64

-- The writes of `encode_fields`, in their order.
abbrev writes : Meta → List (ℕ × ℕ × ℕ)
writes m =
    (4, 0, m.magic)
    ∷ (4, 4, m.version)
    ∷ (4, 8, m.page_bytes)
    ∷ (4, 12, 0)
    ∷ (8, 16, m.txn_id)
    ∷ (8, 24, m.catalog_root)
    ∷ (8, 32, m.freelist_root)
    ∷ (8, 40, m.num_pages)
    ∷ []

module _ {m : Meta} (h : IsHeader m) (buf : Bytes) where
  -- The first 48 bytes hold the fields of the header.
  decode_fields-encode_fields :
      (sum : ℕ) → decode_fields (encode_fields m buf) sum ≡ record m { checksum = sum }
  unfolding encode_fields decode_fields put_all
  decode_fields-encode_fields sum = λ i. record {
    magic =
        get_le-put_all (drop 1 (writes m)) (put_all (take 0 (writes m)) buf) 0 4 m.magic
          (omega arith) (omega arith) i;
    version =
        get_le-put_all (drop 2 (writes m)) (put_all (take 1 (writes m)) buf) 4 4 m.version
          (omega arith) (omega arith) i;
    page_bytes =
        get_le-put_all (drop 3 (writes m)) (put_all (take 2 (writes m)) buf) 8 4 m.page_bytes
          (omega arith) (omega arith) i;
    txn_id =
        get_le-put_all (drop 5 (writes m)) (put_all (take 4 (writes m)) buf) 16 8 m.txn_id h.txn_id
          (omega arith) i;
    catalog_root =
        get_le-put_all (drop 6 (writes m)) (put_all (take 5 (writes m)) buf) 24 8 m.catalog_root
          h.catalog_root (omega arith) i;
    freelist_root =
        get_le-put_all (drop 7 (writes m)) (put_all (take 6 (writes m)) buf) 32 8 m.freelist_root
          h.freelist_root (omega arith) i;
    num_pages =
        get_le-put_all (drop 8 (writes m)) (put_all (take 7 (writes m)) buf) 40 8 m.num_pages
          h.num_pages (omega arith) i;
    checksum = sum;
  }

-- The checksum lies behind the fields, so writing it changes none of them.
decode_fields-put_le :
    (buf : Bytes) (sum v : ℕ) → decode_fields (put_le 8 buf 48 v) sum ≡ decode_fields buf sum
unfolding decode_fields
decode_fields-put_le buf sum v = λ i. record {
  magic = get_le-put_le_ne 4 8 buf 48 v 0 (omega arith) i;
  version = get_le-put_le_ne 4 8 buf 48 v 4 (omega arith) i;
  page_bytes = get_le-put_le_ne 4 8 buf 48 v 8 (omega arith) i;
  txn_id = get_le-put_le_ne 8 8 buf 48 v 16 (omega arith) i;
  catalog_root = get_le-put_le_ne 8 8 buf 48 v 24 (omega arith) i;
  freelist_root = get_le-put_le_ne 8 8 buf 48 v 32 (omega arith) i;
  num_pages = get_le-put_le_ne 8 8 buf 48 v 40 (omega arith) i;
  checksum = sum;
}

check_header-IsHeader :
    {m : Meta} (sum : ℕ)
    → IsHeader m
    → check_header (record m { checksum = sum }) ≡ ok (record m { checksum = sum })
unfolding check_header
check_header-IsHeader sum h = ground arith

module _ (crc : Checksum) where
  -- The checksum that `encode` takes, and the buffer that it leaves.
  abbrev pub sum_of : Meta → Bytes → ℕ
  sum_of m buf = crc.sum (slice 48 (encode_fields m buf) 0)

  abbrev pub page_of : Meta → Bytes → Bytes
  page_of m buf = put_le 8 (encode_fields m buf) 48 (sum_of m buf)

  encode_lem :
      (m : Meta) (len : ℕ) (buf : Bytes)
      → meta_size ≤ len
      → encode crc m len buf ≡ ok (page_of m buf, record m { checksum = sum_of m buf })
  unfolding encode
  encode_lem m len buf h = rw (le→ltb len meta_size h)

  pub decode-page_of :
      (m : Meta) (len : ℕ) (buf : Bytes)
      → IsHeader m
      → meta_size ≤ len
      → decode crc len (page_of m buf) ≡ ok (record m { checksum = sum_of m buf })
  unfolding decode
  decode-page_of m len buf h fits =
      rw
        (
          le→ltb len meta_size fits,
          slice-put_le_ne 48 8 (encode_fields m buf) 48 (sum_of m buf) 0 (omega arith),
          get_le-put_le 8 (encode_fields m buf) 48 (sum_of m buf) (crc.sum_lt _),
          ==-refl (sum_of m buf),
          decode_fields-put_le (encode_fields m buf) (sum_of m buf) (sum_of m buf),
          decode_fields-encode_fields h buf (sum_of m buf),
        )
        (check_header-IsHeader (sum_of m buf) h)

  -- A header of this format and version, with numbers of 64 bits, is read back from the page it is
  -- written to, whatever that page held, if the page has room for a header.
  pub decode-encode :
      (m : Meta) (len : ℕ) (buf : Bytes)
      → IsHeader m
      → meta_size ≤ len
      → (encode crc m len buf >>= λ r. decode crc len r.0) ≡ (encode crc m len buf >>= λ r. ok r.1)
  decode-encode m len buf h fits = rw (encode_lem m len buf fits) (decode-page_of m len buf h fits)

-- Whatever `decode` accepts is a page of this format and version whose checksum matches, and the
-- header is the fields of that page.
pub decode_sound :
    (crc : Checksum) (len : ℕ) (buf : Bytes) {m : Meta}
    → decode crc len buf ≡ ok m
    → (meta_size ≤ len)
      × (get_le 8 buf 48 ≡ crc.sum (slice 48 buf 0))
      × (m ≡ decode_fields buf (crc.sum (slice 48 buf 0)))
      × (m.magic ≡ meta_magic)
      × (m.version ≡ meta_version)
      × (m.page_bytes ≡ page_size)
unfolding decode check_header
decode_sound crc len buf h = ground arith
