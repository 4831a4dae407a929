-- ===== src/Node/Leaf.antt =====
-- encodeLeafCell and appendLeafCellWithOverflow: the key that is written is read back.
use frostfire.Prelude.{
  ℕ, ◌+◌, ◌-◌, ◌*◌, ◌≤◌, ◌<◌, ◌≡◌, ◌≢◌, ◌⊎◌, inl, inr, ◌∙◌, true, List, arith, leb, length, ok,
  le→leb, ne→==,
}
use frostfire.Bytes.{Bytes, page_size, write, put_le, get_le, slice, put_bytes}
use frostfire.Bytes.Codec.{
  write_ne, put_le_ne, get_le-put_le, get_le-ext, slice-ext, put_bytes_ne, slice-put_bytes,
}
use frostfire.Node.Defs.{
  node_leaf, max_key_size, max_inline_size, leaf_cell_header, ntype, n_cells, first_cell_offset,
  header_size, free_space, leaf_key, key, leaf_cell_size, enter_cell, leaf_cell_need,
  encode_leaf_cell, append_leaf_cell, u16, sub16,
}
use frostfire.Node.Append.{
  Appended, free_space_lem, enter_cell-Appended, enter_cell_frame, enter-accepts,
}
use frostfire.Node.Cells.{IsPage, key-earlier, key-last, enter_cell-IsPage, Gains}

-- The bytes of a leaf cell: the inline form, or the form with an overflow page.
abbrev pub IsCell : List ℕ → List ℕ → ℕ → Type 0
IsCell k v overflow_id =
    ((overflow_id ≡ 0) × (leaf_cell_header + length k + length v ≤ max_inline_size))
    ⊎ ((overflow_id ≢ 0) × (max_inline_size < leaf_cell_header + length k + length v))

-- The lengths, the flag and the key of a leaf cell at `p`.
abbrev front : List ℕ → ℕ → ℕ → Bytes → ℕ → Bytes
front k vallen flag d p =
    put_bytes (write (put_le 2 (put_le 2 d p (u16 (length k))) (p + 2) vallen) (p + 4) flag) (p + 5)
      k

module _ (k : List ℕ) (vallen flag : ℕ) (d : Bytes) (p : ℕ) where
  front_ne : (q : ℕ) → (q < p) ⊎ (p + 5 + length k ≤ q) → front k vallen flag d p q ≡ d q
  front_ne q h =
      put_bytes_ne k _ (p + 5) q (omega arith)
      ∙ write_ne _ (p + 4) flag q (omega arith)
      ∙ put_le_ne 2 _ (p + 2) vallen q (omega arith)
      ∙ put_le_ne 2 d p (u16 (length k)) q (omega arith)

  -- A page that agrees with the front reads its key there, whatever follows.
  leaf_key-front :
      (e : Bytes)
      → ((q : ℕ) → p ≤ q → q < p + 5 + length k → e q ≡ front k vallen flag d p q)
      → p + 5 + length k ≤ page_size
      → leaf_key e p ≡ ok k
  unfolding leaf_key
  leaf_key-front e same inside =
      let wrap : u16 (p + leaf_cell_header) ≡ p + leaf_cell_header = omega arith in
      rw (
        wrap,
        keylen,
        le→leb (p + 2) page_size (omega arith),
        le→leb (p + leaf_cell_header + length k) page_size inside,
        copied,
      )
    where
      keylen : get_le 2 e p ≡ length k
      keylen =
          get_le-ext 2 e (front k vallen flag d p) p (λ q lo hi. same q lo (omega arith))
          ∙ get_le-ext 2 (front k vallen flag d p) (put_le 2 d p (u16 (length k))) p (λ q lo hi.
            put_bytes_ne k _ (p + 5) q (omega arith)
            ∙ write_ne _ (p + 4) flag q (omega arith)
            ∙ put_le_ne 2 _ (p + 2) vallen q (omega arith))
          ∙ get_le-put_le 2 d p (u16 (length k)) (omega arith)
          ∙ omega arith

      copied : slice (length k) e (p + leaf_cell_header) ≡ k
      copied =
          slice-ext (length k) e (front k vallen flag d p) (p + leaf_cell_header)
            (λ q lo hi. same q (omega arith) (omega arith))
          ∙ slice-put_bytes k _ (p + 5)

module _ (k v : List ℕ) (overflow_id : ℕ) (d : Bytes) (p : ℕ)
    (small : length k ≤ max_key_size) where
  -- The key is read back from every page that has the cell's bytes at `p`.
  leaf_key-encode_leaf_cell :
      (e : Bytes)
      → ((q : ℕ) → p ≤ q → e q ≡ encode_leaf_cell k v overflow_id d p q)
      → p + leaf_cell_size k v ≤ page_size
      → IsCell k v overflow_id
      → leaf_key e p ≡ ok k
  unfolding encode_leaf_cell leaf_cell_size
  leaf_key-encode_leaf_cell e same inside (inl (zero_id, inline)) =
      leaf_key-front k (u16 (length v)) 0 d p e
        (λ q lo hi. same q lo ∙ (rw zero_id (put_bytes_ne v _ (p + 5 + length k) q (omega arith))))
        (ground arith)
  leaf_key-encode_leaf_cell e same inside (inr (id, big)) =
      leaf_key-front k (u16 (length v)) 1 d p e
        (λ q lo hi.
          same q lo
          ∙ (rw (ne→== overflow_id 0 id)
              (put_le_ne 8 _ (p + 5 + length k) overflow_id q (omega arith))))
        (ground arith)

  encode_leaf_cell_ne :
      (q : ℕ)
      → IsCell k v overflow_id
      → (q < p) ⊎ (p + leaf_cell_size k v ≤ q)
      → encode_leaf_cell k v overflow_id d p q ≡ d q
  unfolding encode_leaf_cell leaf_cell_size
  encode_leaf_cell_ne q (inl (zero_id, inline)) h = rw zero_id (
      put_bytes_ne v _ (p + 5 + length k) q (ground arith)
      ∙ front_ne k (u16 (length v)) 0 d p q (ground arith))
  encode_leaf_cell_ne q (inr (id, big)) h = rw (ne→== overflow_id 0 id) (
      put_le_ne 8 _ (p + 5 + length k) overflow_id q (ground arith)
      ∙ front_ne k (u16 (length v)) 1 d p q (ground arith))

-- What encodeLeafCell slices is inside the cell.
need_le :
    (k v : List ℕ) (overflow_id : ℕ)
    → IsCell k v overflow_id
    → length k ≤ max_key_size
    → (pos : ℕ) → pos + leaf_cell_size k v ≤ page_size
    → pos + leaf_cell_need k overflow_id ≤ page_size
unfolding leaf_cell_size
need_le k v overflow_id (inl (zero_id, inline)) small pos h = rw zero_id (ground arith)
need_le k v overflow_id (inr (id, big)) small pos h = rw (ne→== overflow_id 0 id) (ground arith)

-- A leaf cell that fits, with a key of an allowed length, an inline value that is short enough or
-- an overflow page for one that is not, is appended: the page stays well
-- formed and of its type, it has one cell more, the key of the new cell is the key that was given,
-- and every earlier cell keeps its key.
pub append_leaf_cell-Appended :
    (k v : List ℕ) (overflow_id : ℕ) (d : Bytes)
    → IsPage d
    → ntype d ≡ node_leaf
    → IsCell k v overflow_id
    → length k ≤ max_key_size
    → 2 + leaf_cell_size k v ≤ free_space d
    → (t : Bytes) × (append_leaf_cell k v overflow_id d ≡ ok t) × Gains d k t
unfolding append_leaf_cell
append_leaf_cell-Appended k v overflow_id d p leaf c small h = (
  t,
  accepted,
  record {
    page = enter_cell-IsPage d e len p fits kept;
    same_type = appended.ntype;
    one_more = appended.count;
    added = last;
    others = key-earlier p appended (omega arith);
  },
)
  where
    len : ℕ
    len = leaf_cell_size k v

    pos : ℕ
    pos = first_cell_offset d - len

    e : Bytes
    e = encode_leaf_cell k v overflow_id d pos

    fits : header_size d + 2 * n_cells d + 2 + len ≤ first_cell_offset d
    fits = omega (arith, free_space_lem d p.slotted)

    kept : (q : ℕ) → (q < pos) ⊎ (first_cell_offset d ≤ q) → e q ≡ d q
    kept q r = encode_leaf_cell_ne k v overflow_id d pos small q c (omega (arith, fits))

    t : Bytes
    t = enter_cell d (n_cells d) pos e

    appended : Appended d t pos
    appended = enter_cell-Appended d e len p.slotted fits kept

    at_pos : sub16 (first_cell_offset d) len ≡ pos
    at_pos = omega (arith, p.slotted.inside, fits)

    enough : leb (u16 (2 + len)) (free_space d) ≡ true
    enough = le→leb _ _ (omega (arith, fits, p.slotted.inside))

    accepted : append_leaf_cell k v overflow_id d ≡ ok t
    accepted =
        rw (enough, at_pos)
          (enter-accepts d e len p.slotted fits kept (leaf_cell_need k overflow_id)
            (need_le k v overflow_id c small pos (omega (arith, fits, p.slotted.inside))))

    last : key t (n_cells d) ≡ ok k
    last =
        key-last p appended (omega arith)
        ∙ (rw leaf (
            leaf_key-encode_leaf_cell k v overflow_id d pos small t
              (λ q lo. enter_cell_frame d e len p.slotted fits kept q lo)
              (omega (arith, fits, p.slotted.inside)) c))
