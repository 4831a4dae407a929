-- ===== src/Meta/Recovery.antt =====
-- What `loadMeta` finds after a commit that was completed, or cut off while it wrote its meta page.
use frostfire.Prelude.{
  ℕ, ◌+◌, ◌%◌, ◌^◌, ◌<◌, ◌≡◌, refl, ◌⊎◌, inl, inr, arith, Bool, true, false, ◌==◌, if◌then◌else◌,
  ok, err, Result, Error, panic, Bool-cases,
}
use frostfire.Bytes.{Bytes, page_size}
use frostfire.Meta.{
  Meta, Checksum, meta_page0, meta_page1, decode, is_newer, choose_meta, next_meta_page, load_meta,
}
use frostfire.Meta.Roundtrip.{IsHeader, page_of, sum_of, decode-page_of}

-- A transaction id is newer than any of the 2^63 - 1 ids before it and not older than any of them,
-- also where the counter has wrapped round in between.
pub is_newer-window :
    (a k : ℕ)
    → a < 2 ^ 64
    → 0 < k
    → k < 2 ^ 63
    → (is_newer ((a + k) % 2 ^ 64) a ≡ true) × (is_newer a ((a + k) % 2 ^ 64) ≡ false)
unfolding is_newer
is_newer-window a k small pos half = ground arith

-- Of two ids at most one is newer.
is_newer-asym : (a b : ℕ) → is_newer a b ≡ true → is_newer b a ≡ false
unfolding is_newer
is_newer-asym a b h = ground arith

-- A page that decodes to a header newer than `m`.
abbrev pub beats : Result Meta → Meta → Bool
beats (ok other) m = is_newer other.txn_id m.txn_id
beats (err e) m = false
beats panic m = false

-- The page that was taken gives the header, and the other page does not beat it.
abbrev Chosen : Result Meta → Result Meta → Meta → Type 0
Chosen mine theirs m = (mine ≡ ok m) × (beats theirs m ≡ false)

choose_meta-Chosen :
    (r0 r1 : Result Meta) {m : Meta} {p : ℕ}
    → choose_meta r0 r1 ≡ ok (m, p)
    → ((p ≡ meta_page0) × Chosen r0 r1 m) ⊎ ((p ≡ meta_page1) × Chosen r1 r0 m)
unfolding choose_meta
choose_meta-Chosen (ok m0) (ok m1) h = elim (Bool-cases (is_newer m1.txn_id m0.txn_id)) [
  | inl newer ↦
      inr (ground arith, (ground arith, ground (arith, is_newer-asym m1.txn_id m0.txn_id)))
  | inr older ↦ inl (ground arith, (ground arith, ground arith))
]
choose_meta-Chosen (ok m0) (err e) h = inl (ground arith, (ground arith, refl))
choose_meta-Chosen (ok m0) panic h = inl (ground arith, (ground arith, refl))
choose_meta-Chosen (err e) (ok m1) h = inr (ground arith, (ground arith, refl))
choose_meta-Chosen (err e) (err f) h = cc
choose_meta-Chosen (err e) panic h = cc
choose_meta-Chosen panic r1 h = cc

-- The two meta pages of the file.
abbrev pub Pages : Type 0
Pages = ℕ → Bytes

abbrev pub set_page : Pages → ℕ → Bytes → Pages
set_page pages p buf = λ q. if q == p then buf else pages q

module _ (crc : Checksum) where
  -- `loadMeta` where both pages can be read.
  abbrev pub reload : Pages → Result (Meta × ℕ)
  reload pages = load_meta crc (ok (pages meta_page0)) (ok (pages meta_page1))

  -- If reloading chooses a page, it is one of the two meta pages, it decodes to the header that is
  -- returned, and the other page does not decode to a newer header.
  pub load_meta-newest :
      (pages : Pages) {m : Meta} {p : ℕ}
      → reload pages ≡ ok (m, p)
      → ((p ≡ meta_page0) ⊎ (p ≡ meta_page1))
        × (decode crc page_size (pages p) ≡ ok m)
        × (beats (decode crc page_size (pages (next_meta_page p))) m ≡ false)
  unfolding load_meta next_meta_page
  load_meta-newest pages h = elim (choose_meta-Chosen _ _ h) [
    | inl (e, c) ↦ rw e (inl refl, c.0, c.1)
    | inr (e, c) ↦ rw e (inr refl, c.0, c.1)
  ]

  -- If the current page decodes and the other page is overwritten with bytes that do not, reloading
  -- finds the current header, on its page.
  pub torn_write-keeps :
      (pages : Pages) (m : Meta) (current : ℕ) (torn : Bytes) (e : Error)
      → (current ≡ meta_page0) ⊎ (current ≡ meta_page1)
      → decode crc page_size (pages current) ≡ ok m
      → decode crc page_size torn ≡ err e
      → reload (set_page pages (next_meta_page current) torn) ≡ ok (m, current)
  unfolding load_meta choose_meta next_meta_page
  torn_write-keeps pages m current torn e (inl c) good bad =
      let good' : decode crc page_size (pages 0) ≡ ok m = rw c at good in rw (c, good', bad)
  torn_write-keeps pages m current torn e (inr c) good bad =
      let good' : decode crc page_size (pages 1) ≡ ok m = rw c at good in rw (c, good', bad)

  -- If the current page decodes, and a header of this format with the next transaction id (modulo
  -- 2^64) is written to the other page, whatever that held, reloading finds the new header there.
  pub commit-found :
      (pages : Pages) (m new : Meta) (current : ℕ) (buf : Bytes)
      → (current ≡ meta_page0) ⊎ (current ≡ meta_page1)
      → decode crc page_size (pages current) ≡ ok m
      → m.txn_id < 2 ^ 64
      → IsHeader new
      → new.txn_id ≡ (m.txn_id + 1) % 2 ^ 64
      → reload (set_page pages (next_meta_page current) (page_of crc new buf))
        ≡ ok (record new { checksum = sum_of crc new buf }, next_meta_page current)
  unfolding load_meta choose_meta next_meta_page
  commit-found pages m new current buf (inl c) good small h id =
      let good' : decode crc page_size (pages 0) ≡ ok m = rw c at good in
      rw (
        c,
        good',
        decode-page_of crc new page_size buf h (omega arith),
        id,
        (is_newer-window m.txn_id 1 small (omega arith) (omega arith)).0,
      )
  commit-found pages m new current buf (inr c) good small h id =
      let good' : decode crc page_size (pages 1) ≡ ok m = rw c at good in
      rw (
        c,
        decode-page_of crc new page_size buf h (omega arith),
        good',
        id,
        (is_newer-window m.txn_id 1 small (omega arith) (omega arith)).1,
      )
