-- ===== src/Meta/Torn.antt =====
-- A commit whose write of the header is cut off: what `loadMeta` finds on the file.
use frostfire.Prelude.{
  ℕ, ◌+◌, ◌%◌, ◌^◌, ◌<◌, ◌≡◌, ◌≢◌, ◌⊎◌, inl, inr, refl, ◌∙◌, arith, ltb, if◌then◌else◌, ok, err,
  checksum_mismatch, ne→==, le→ltb, lt→ltb, dec_lt,
}
use frostfire.Bytes.{Bytes, page_size, get_le, slice}
use frostfire.Bytes.Codec.{get_le-ext, slice-ext}
use frostfire.Meta.{
  Meta, Checksum, meta_page0, meta_page1, meta_size, decode, decode_fields, next_meta_page,
  load_meta,
}
use frostfire.Meta.Roundtrip.{IsHeader, page_of, sum_of}
use frostfire.Meta.Recovery.{
  Pages, set_page, reload, load_meta-newest, torn_write-keeps, commit-found,
}

-- A page whose writing was cut off behind the first `k` bytes.
abbrev pub cut_off : ℕ → Bytes → Bytes → Bytes
cut_off k new old = λ i. if ltb i k then new i else old i

decode_fields-ext :
    (d e : Bytes) (sum : ℕ)
    → ((i : ℕ) → i < meta_size → d i ≡ e i)
    → decode_fields d sum ≡ decode_fields e sum
unfolding decode_fields
decode_fields-ext d e sum h = λ j. record {
  magic = get_le-ext 4 d e 0 (λ q lo hi. h q (omega arith)) j;
  version = get_le-ext 4 d e 4 (λ q lo hi. h q (omega arith)) j;
  page_bytes = get_le-ext 4 d e 8 (λ q lo hi. h q (omega arith)) j;
  txn_id = get_le-ext 8 d e 16 (λ q lo hi. h q (omega arith)) j;
  catalog_root = get_le-ext 8 d e 24 (λ q lo hi. h q (omega arith)) j;
  freelist_root = get_le-ext 8 d e 32 (λ q lo hi. h q (omega arith)) j;
  num_pages = get_le-ext 8 d e 40 (λ q lo hi. h q (omega arith)) j;
  checksum = sum;
}

module _ (crc : Checksum) where
  -- `decode` reads the bytes of the header only.
  decode-ext :
      (d e : Bytes)
      → ((i : ℕ) → i < meta_size → d i ≡ e i)
      → decode crc page_size d ≡ decode crc page_size e
  unfolding decode
  decode-ext d e h =
      rw
        (
          slice-ext 48 d e 0 (λ q lo hi. h q (omega arith)),
          get_le-ext 8 d e 48 (λ q lo hi. h q (omega arith)),
          decode_fields-ext d e (crc.sum (slice 48 e 0)) h,
        )
        refl

  reload-set_page :
      (pages : Pages) (p : ℕ) (d e : Bytes)
      → (p ≡ meta_page0) ⊎ (p ≡ meta_page1)
      → decode crc page_size d ≡ decode crc page_size e
      → reload crc (set_page pages p d) ≡ reload crc (set_page pages p e)
  unfolding load_meta
  reload-set_page pages p d e (inl at) same = rw (at, same) refl
  reload-set_page pages p d e (inr at) same = rw (at, same) refl

  -- Writing a page again as it is.
  reload-same :
      (pages : Pages) (p : ℕ)
      → (p ≡ meta_page0) ⊎ (p ≡ meta_page1)
      → reload crc (set_page pages p (pages p)) ≡ reload crc pages
  reload-same pages p (inl at) = rw at refl
  reload-same pages p (inr at) = rw at refl

  next_meta_page_lem : (p : ℕ) → (next_meta_page p ≡ meta_page0) ⊎ (next_meta_page p ≡ meta_page1)
  unfolding next_meta_page
  next_meta_page_lem p = ground arith

  -- The checksum of the bytes in front of it does not match.
  abbrev pub IsTorn : Bytes → Type 0
  IsTorn d = get_le 8 d 48 ≢ crc.sum (slice 48 d 0)

  IsTorn-decode : (d : Bytes) → IsTorn d → decode crc page_size d ≡ err checksum_mismatch
  unfolding decode
  IsTorn-decode d torn = rw (ne→== (get_le 8 d 48) (crc.sum (slice 48 d 0)) torn) refl

  -- Let reloading find a header, and let a header of this format with the next transaction id (modulo
  -- 2^64) be written to the other page, but cut off behind its first `k` bytes. If the whole header of
  -- 56 bytes was written, reloading finds it, on its page. If less was, and the checksum shows it
  -- unless nothing was written at all, reloading finds the header as before.
  pub cut_off-reload :
      (pages : Pages) (m new : Meta) (current : ℕ) (buf : Bytes) (k : ℕ)
      → reload crc pages ≡ ok (m, current)
      → m.txn_id < 2 ^ 64
      → IsHeader new
      → new.txn_id ≡ (m.txn_id + 1) % 2 ^ 64
      → (0 < k
          → k < meta_size
          → IsTorn (cut_off k (page_of crc new buf) (pages (next_meta_page current))))
      → reload crc (
          set_page pages
            (next_meta_page current)
            (cut_off k (page_of crc new buf) (pages (next_meta_page current))))
        ≡ (if ltb k meta_size
            then ok (m, current)
            else ok (record new { checksum = sum_of crc new buf }, next_meta_page current))
  cut_off-reload pages m new current buf k found small h id detected =
      let (place, good, older) = load_meta-newest crc pages found in
      let next = next_meta_page current in
      let torn = cut_off k (page_of crc new buf) (pages next) in
      let at = next_meta_page_lem current in
      elim (dec_lt k meta_size) [
        | no all ↦ rw (le→ltb k meta_size (omega (arith, all))) (
            reload-set_page pages next torn (page_of crc new buf) at (
              decode-ext torn (page_of crc new buf)
                (λ i lt. rw (lt→ltb i k (omega (arith, all, lt))) refl))
            ∙ commit-found crc pages m new current buf place good small h id)
        | yes part ↦ rw (lt→ltb k meta_size part) (elim (dec_lt 0 k) [
          | yes some_byte ↦
              torn_write-keeps crc pages m current torn checksum_mismatch place good
                (IsTorn-decode torn (detected some_byte part))
          | no none ↦
              reload-set_page pages next torn (pages next) at
                (decode-ext torn (pages next) (λ i lt. rw (le→ltb i k (omega (arith, none))) refl))
              ∙ reload-same pages next at
              ∙ found
        ])
      ]
