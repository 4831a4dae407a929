-- ===== src/Node/Internal.antt =====
-- encodeInternalCell and appendInternalCell: the key that is written is read back.
use frostfire.Prelude.{
  ℕ, ◌+◌, ◌-◌, ◌*◌, ◌≤◌, ◌<◌, ◌≡◌, ◌⊎◌, ◌∙◌, true, List, arith, leb, length, ok, le→leb,
}
use frostfire.Bytes.{Bytes, page_size, put_le, get_le, slice}
use frostfire.Bytes.Codec.{
  put_le_ne, get_le-put_le, get_le-ext, slice-ext, put_bytes_ne, slice-put_bytes,
}
use frostfire.Node.Defs.{
  max_key_size, ntype, n_cells, first_cell_offset, header_size, free_space, internal_key, key,
  internal_cell_size, enter_cell, encode_internal_cell, append_internal_cell, node_internal, u16,
  sub16,
}
use frostfire.Node.Append.{
  Appended, free_space_lem, enter_cell-Appended, enter_cell_frame, enter-accepts,
}
use frostfire.Node.Cells.{IsPage, key-earlier, key-last, enter_cell-IsPage, Gains}

module _ (child : ℕ) (k : List ℕ) (d : Bytes) (p : ℕ) (small : length k ≤ max_key_size) where
  encode_internal_cell_ne :
      (q : ℕ) → (q < p) ⊎ (p + internal_cell_size k ≤ q) → encode_internal_cell child k d p q ≡ d q
  unfolding encode_internal_cell internal_cell_size
  encode_internal_cell_ne q h =
      put_bytes_ne k _ (p + 10) q (omega arith)
      ∙ put_le_ne 2 _ (p + 8) _ q (omega arith)
      ∙ put_le_ne 8 d p child q (omega arith)

  internal_key-encode_internal_cell :
      (e : Bytes)
      → ((q : ℕ) → p ≤ q → e q ≡ encode_internal_cell child k d p q)
      → p + internal_cell_size k ≤ page_size
      → internal_key e p ≡ ok k
  unfolding encode_internal_cell internal_cell_size internal_key
  internal_key-encode_internal_cell e same inside =
      let wrap : u16 (p + 8) ≡ p + 8 = omega arith in
      let wrap' : u16 (p + 10) ≡ p + 10 = omega arith in
      rw (
        wrap,
        wrap',
        keylen,
        le→leb (p + 8 + 2) page_size (omega arith),
        le→leb (p + 10 + length k) page_size (omega arith),
        copied,
      )
    where
      keylen : get_le 2 e (p + 8) ≡ length k
      keylen =
          get_le-ext 2 e (put_le 2 (put_le 8 d p child) (p + 8) (u16 (length k))) (p + 8)
            (λ q lo hi. same q (omega arith) ∙ put_bytes_ne k _ (p + 10) q (omega arith))
          ∙ get_le-put_le 2 _ (p + 8) (u16 (length k)) (omega arith)
          ∙ omega arith

      copied : slice (length k) e (p + 10) ≡ k
      copied =
          slice-ext (length k) e (encode_internal_cell child k d p) (p + 10)
            (λ q lo hi. same q (omega arith))
          ∙ slice-put_bytes k _ (p + 10)

-- An internal cell that fits, with a key of an allowed length, is appended: the page stays well
-- formed and of its type, it has one cell more, the key of the new cell is the key that was given,
-- and every earlier cell keeps its key.
pub append_internal_cell-Appended :
    (child : ℕ) (k : List ℕ) (d : Bytes)
    → IsPage d
    → ntype d ≡ node_internal
    → length k ≤ max_key_size
    → 2 + internal_cell_size k ≤ free_space d
    → (t : Bytes) × (append_internal_cell child k d ≡ ok t) × Gains d k t
unfolding append_internal_cell internal_cell_size
append_internal_cell-Appended child k d p inner small h = (
  t,
  accepted,
  record {
    page = enter_cell-IsPage d e len p fits kept;
    same_type = appended.ntype;
    one_more = appended.count;
    added = last;
    others = key-earlier p appended (omega arith);
  },
)
  where
    len : ℕ
    len = internal_cell_size k

    pos : ℕ
    pos = first_cell_offset d - len

    e : Bytes
    e = encode_internal_cell child k d pos

    fits : header_size d + 2 * n_cells d + 2 + len ≤ first_cell_offset d
    fits = omega (arith, free_space_lem d p.slotted)

    kept : (q : ℕ) → (q < pos) ⊎ (first_cell_offset d ≤ q) → e q ≡ d q
    kept q r = encode_internal_cell_ne child k d pos small q (omega (arith, fits))

    t : Bytes
    t = enter_cell d (n_cells d) pos e

    appended : Appended d t pos
    appended = enter_cell-Appended d e len p.slotted fits kept

    at_pos : sub16 (first_cell_offset d) len ≡ pos
    at_pos = omega (arith, p.slotted.inside, fits)

    enough : leb (u16 (2 + len)) (free_space d) ≡ true
    enough = le→leb _ _ (omega (arith, fits, p.slotted.inside))

    accepted : append_internal_cell child k d ≡ ok t
    accepted =
        rw (enough, at_pos)
          (enter-accepts d e len p.slotted fits kept 10 (omega (arith, fits, p.slotted.inside)))

    last : key t (n_cells d) ≡ ok k
    last =
        key-last p appended (omega arith)
        ∙ (rw inner (
            internal_key-encode_internal_cell child k d pos small t
              (λ q lo. enter_cell_frame d e len p.slotted fits kept q lo)
              (omega (arith, fits, p.slotted.inside))))
