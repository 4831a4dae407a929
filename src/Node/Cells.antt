-- ===== src/Node/Cells.antt =====
-- Well-formed pages: their offset array points into the cell area, and a cell that is entered
-- leaves the keys of the earlier cells as they were.
use frostfire.Prelude.{
  ℕ, ◌+◌, ◌-◌, ◌*◌, ◌≤◌, ◌<◌, ◌≡◌, ◌⊎◌, ◌∙◌, List, arith, leb, ◌==◌, if◌then◌else◌, ok, panic,
  ◌>>=◌, dec_lt, lt→ltb, le→leb,
}
use frostfire.Bytes.{Bytes, page_size, write, get_le}
use frostfire.Bytes.Codec.{
  write_self, put_le_ne, get_le-put_le, get_le-put_le_ne, get_le-ext, slice-ext,
}
use frostfire.Node.Defs.{
  node_leaf, leaf_cell_header, ntype, n_cells, first_cell_offset, header_size, offset_pos,
  cell_offset, read_le, leaf_key, internal_key, key, enter_cell, init_node, set_n_cells,
  set_first_cell_offset, u16,
}
use frostfire.Node.Append.{
  IsSlotted, Appended, enter_cell-Appended, header_size_le, entered_header, entered_first,
  entered-n_cells, entered_offset, entered_offset_new,
}

-- Every cell begins in the cell area.
pub record IsPage (d : Bytes) : Type 0 where
  pub slotted : IsSlotted d
  pub begins : (i : ℕ) → i < n_cells d → first_cell_offset d ≤ get_le 2 d (header_size d + 2 * i)
  pub ends : (i : ℕ) → i < n_cells d → get_le 2 d (header_size d + 2 * i) ≤ page_size

cell_offset_lem :
    (d : Bytes) (i : ℕ)
    → IsSlotted d
    → i < n_cells d
    → cell_offset d i ≡ ok (get_le 2 d (header_size d + 2 * i))
unfolding cell_offset
cell_offset_lem d i s h = rw (
  lt→ltb i (n_cells d) h,
  at_i,
  le→leb (header_size d + 2 * i + 2) page_size (omega (arith, s.room, s.inside)),
)
  where
    at_i : offset_pos d i ≡ header_size d + 2 * i
    at_i = omega (arith, s.room, s.inside, header_size_le d)

-- The key at `pos` depends on the bytes from `pos` on.
leaf_key-ext :
    (d e : Bytes) (pos : ℕ)
    → pos ≤ page_size
    → ((p : ℕ) → pos ≤ p → d p ≡ e p)
    → leaf_key d pos ≡ leaf_key e pos
unfolding leaf_key
leaf_key-ext d e pos h same =
    let wrap : u16 (pos + leaf_cell_header) ≡ pos + leaf_cell_header = omega arith in
    rw (wrap, get_le-ext 2 d e pos (λ q lo hi. same q lo))
      (λ i. read_le 2 e pos >>= λ k.
        if leb (pos + leaf_cell_header + k) page_size
        then ok (slice-ext k d e (pos + leaf_cell_header) (λ q lo hi. same q (omega arith)) i)
        else panic)

internal_key-ext :
    (d e : Bytes) (pos : ℕ)
    → pos ≤ page_size
    → ((p : ℕ) → pos ≤ p → d p ≡ e p)
    → internal_key d pos ≡ internal_key e pos
unfolding internal_key
internal_key-ext d e pos h same =
    let wrap : u16 (pos + 8) ≡ pos + 8 = omega arith in
    let wrap' : u16 (pos + 10) ≡ pos + 10 = omega arith in
    rw (wrap, wrap', get_le-ext 2 d e (pos + 8) (λ q lo hi. same q (omega arith)))
      (λ i. read_le 2 e (pos + 8) >>= λ k.
        if leb (pos + 10 + k) page_size
        then ok (slice-ext k d e (pos + 10) (λ q lo hi. same q (omega arith)) i)
        else panic)

module _ {d t : Bytes} {pos : ℕ} (p : IsPage d) (a : Appended d t pos)
    (low : pos ≤ first_cell_offset d) where
  -- The keys of the earlier cells.
  pub key-earlier : (i : ℕ) → i < n_cells d → key t i ≡ key d i
  unfolding key
  key-earlier i h =
      let off = get_le 2 d (header_size d + 2 * i) in
      rw (
        a.earlier i h,
        cell_offset_lem d i p.slotted h,
        a.ntype,
        leaf_key-ext t d off (p.ends i h) (λ q lo. a.cells q (omega (arith, p.begins i h))),
        internal_key-ext t d off (p.ends i h) (λ q lo. a.cells q (omega (arith, p.begins i h))),
      )

  pub key-last :
      key t (n_cells d) ≡ (if ntype d == node_leaf then leaf_key t pos else internal_key t pos)
  unfolding key
  key-last = rw (a.last, a.ntype)

-- The new cell begins the cell area.
module _ (d e : Bytes) (len : ℕ) (p : IsPage d)
    (fits : header_size d + 2 * n_cells d + 2 + len ≤ first_cell_offset d)
    (kept : (q : ℕ) → (q < first_cell_offset d - len) ⊎ (first_cell_offset d ≤ q) → e q ≡ d q) where
  pub enter_cell-IsPage : IsPage (enter_cell d (n_cells d) (first_cell_offset d - len) e)
  enter_cell-IsPage = record {
    slotted = (enter_cell-Appended d e len p.slotted fits kept).slotted;
    begins = λ i h. elim (dec_lt i (n_cells d)) [
      | yes q ↦
          rw
            (
              entered_header d e len p.slotted fits kept,
              entered_first d e len p.slotted fits kept,
              entered_offset d e len p.slotted fits kept i q,
            )
            (omega (arith, p.begins i q))
      | no q ↦
          let same : i ≡ n_cells d =
            omega (arith, h, entered-n_cells d e len p.slotted fits kept) in
          rw
            (
              same,
              entered_header d e len p.slotted fits kept,
              entered_first d e len p.slotted fits kept,
              entered_offset_new d e len p.slotted fits kept,
            )
            (omega arith)
    ];
    ends = λ i h. elim (dec_lt i (n_cells d)) [
      | yes q ↦
          rw
            (
              entered_header d e len p.slotted fits kept,
              entered_offset d e len p.slotted fits kept i q,
            )
            (p.ends i q)
      | no q ↦
          let same : i ≡ n_cells d =
            omega (arith, h, entered-n_cells d e len p.slotted fits kept) in
          rw
            (
              same,
              entered_header d e len p.slotted fits kept,
              entered_offset_new d e len p.slotted fits kept,
            )
            (omega (arith, p.slotted.inside))
    ];
  }

-- `t` is the page `d` with a cell of the key `k` behind the others.
pub record Gains (d : Bytes) (k : List ℕ) (t : Bytes) : Type 0 where
  pub page : IsPage t
  pub same_type : ntype t ≡ ntype d
  pub one_more : n_cells t ≡ n_cells d + 1
  pub added : key t (n_cells d) ≡ ok k
  pub others : (i : ℕ) → i < n_cells d → key t i ≡ key d i

-- A page that was just initialised is well formed and empty.
pub init_node-IsPage :
    (t : ℕ) (d : Bytes)
    → IsPage (init_node t d) × (n_cells (init_node t d) ≡ 0) × (ntype (init_node t d) ≡ t)
unfolding init_node set_n_cells set_first_cell_offset n_cells ntype first_cell_offset
init_node-IsPage t d = (
  record {
    slotted = record {
      room = omega (arith, empty, first, header_size_le (init_node t d));
      inside = omega (arith, first);
    };
    begins = λ i h. absurd (omega (arith, empty, h));
    ends = λ i h. absurd (omega (arith, empty, h));
  },
  empty,
  put_le_ne 2 _ 3 page_size 0 (omega arith)
      ∙ put_le_ne 2 (write d 0 t) 1 0 0 (omega arith)
      ∙ write_self d 0 t,
)
  where
    empty : n_cells (init_node t d) ≡ 0
    empty =
        get_le-put_le_ne 2 2 _ 3 page_size 1 (omega arith)
        ∙ get_le-put_le 2 (write d 0 t) 1 0 (omega arith)

    first : first_cell_offset (init_node t d) ≡ page_size
    first = get_le-put_le 2 _ 3 page_size (omega arith)
