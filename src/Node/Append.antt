-- ===== src/Node/Append.antt =====
-- Adding a cell to a page: the page stays slotted, its earlier cells stay as they were, and the new
-- cell is the last one.
use frostfire.Prelude.{
  ℕ, ◌+◌, ◌-◌, ◌*◌, ◌≤◌, ◌<◌, ◌≡◌, ◌⊎◌, refl, inl, inr, ◌∙◌, true, List, arith, leb, length, ok,
  panic, lt→ltb, le→leb, gt→leb,
}
use frostfire.Bytes.{Bytes, page_size, get_le, slice, put_bytes}
use frostfire.Bytes.Codec.{
  put_le_ne, get_le-put_le, get_le-put_le_ne, get_le-ext, slice-ext, put_bytes_ne, slice-put_bytes,
}
use frostfire.Node.Defs.{
  leaf_header_size, internal_header_size, ntype, n_cells, first_cell_offset, header_size,
  offset_pos, cell_offset, free_space, set_n_cells, set_first_cell_offset, enter_cell, enter,
  append_cell, u16, sub16,
}

-- The offset array ends before the cells begin, and the cells end with the page.
pub record IsSlotted (d : Bytes) : Type 0 where
  pub room : header_size d + 2 * n_cells d ≤ first_cell_offset d
  pub inside : first_cell_offset d ≤ page_size

pub header_size_le :
    (d : Bytes) → (leaf_header_size ≤ header_size d) × (header_size d ≤ internal_header_size)
unfolding header_size
header_size_le d = ground arith

-- The gap between the offset array and the cells.
pub free_space_lem :
    (d : Bytes) → IsSlotted d → free_space d + (header_size d + 2 * n_cells d) ≡ first_cell_offset d
unfolding free_space
free_space_lem d s = omega (arith, header_size_le d)

-- The page `t` is `d` with a cell at `pos` behind the others.
pub record Appended (d t : Bytes) (pos : ℕ) : Type 0 where
  pub slotted : IsSlotted t
  pub ntype : ntype t ≡ ntype d
  pub header : header_size t ≡ header_size d
  pub count : n_cells t ≡ n_cells d + 1
  pub first : first_cell_offset t ≡ pos
  pub earlier : (i : ℕ) → i < n_cells d → cell_offset t i ≡ cell_offset d i
  pub last : cell_offset t (n_cells d) ≡ ok pos
  pub cells : (p : ℕ) → first_cell_offset d ≤ p → t p ≡ d p

-- A page `e` that is `d` but for a cell of `len` bytes just below the earlier cells.
module _ (d e : Bytes) (len : ℕ) (s : IsSlotted d)
    (fits : header_size d + 2 * n_cells d + 2 + len ≤ first_cell_offset d)
    (kept : (p : ℕ) → (p < first_cell_offset d - len) ⊎ (first_cell_offset d ≤ p) → e p ≡ d p) where
  abbrev pub array_end : ℕ
  array_end = header_size d + 2 * n_cells d

  abbrev pub entered : Bytes
  entered = enter_cell d (n_cells d) (first_cell_offset d - len) e

  entered_frame :
      (p : ℕ)
      → ((5 ≤ p) × (p < header_size d + 2 * n_cells d))
        ⊎ (header_size d + 2 * n_cells d + 2 ≤ p)
        ⊎ (p ≡ 0)
      → entered p ≡ e p
  unfolding enter_cell set_n_cells set_first_cell_offset
  entered_frame p h =
      put_le_ne 2 _ 1 _ p (omega (arith, header_size_le d))
      ∙ put_le_ne 2 _ 3 _ p (omega (arith, header_size_le d))
      ∙ put_le_ne 2 e (offset_pos d (n_cells d)) _ p (omega (arith, header_size_le d))

  entered_ntype : ntype entered ≡ ntype d
  unfolding ntype
  entered_ntype = entered_frame 0 (inr (inr refl)) ∙ kept 0 (inl (omega (arith, header_size_le d)))

  pub entered_header : header_size entered ≡ header_size d
  unfolding header_size
  entered_header = rw entered_ntype

  pub entered-n_cells : n_cells entered ≡ n_cells d + 1
  unfolding enter_cell set_n_cells set_first_cell_offset n_cells
  entered-n_cells = get_le-put_le 2 _ 1 _ (omega arith) ∙ omega (arith, header_size_le d)

  pub entered_first : first_cell_offset entered ≡ first_cell_offset d - len
  unfolding enter_cell set_n_cells set_first_cell_offset first_cell_offset
  entered_first =
      get_le-put_le_ne 2 2 _ 1 _ 3 (omega arith)
      ∙ get_le-put_le 2 _ 3 (get_le 2 d 3 - len) (omega (arith, s.inside))

  pub entered_offset_new :
      get_le 2 entered (header_size d + 2 * n_cells d) ≡ first_cell_offset d - len
  unfolding enter_cell set_n_cells set_first_cell_offset
  entered_offset_new =
      get_le-put_le_ne 2 2 _ 1 _ array_end (omega (arith, header_size_le d))
      ∙ get_le-put_le_ne 2 2 _ 3 _ array_end (omega (arith, header_size_le d))
      ∙ (rw at_end
          (get_le-put_le 2 e array_end (first_cell_offset d - len) (omega (arith, s.inside))))
    where
      at_end : offset_pos d (n_cells d) ≡ array_end
      at_end = omega (arith, s.inside, header_size_le d)

  pub entered_offset :
      (i : ℕ)
      → i < n_cells d
      → get_le 2 entered (header_size d + 2 * i) ≡ get_le 2 d (header_size d + 2 * i)
  entered_offset i h = get_le-ext 2 entered d (header_size d + 2 * i) λ q lo hi.
      entered_frame q (inl (omega (arith, header_size_le d), omega arith))
      ∙ kept q (inl (omega arith))

  entered-IsSlotted : IsSlotted entered
  entered-IsSlotted = record {
    room = omega (arith, entered_header, entered-n_cells, entered_first);
    inside = omega (arith, entered_first, s.inside);
  }

  entered-cell_offset : (i : ℕ) → i < n_cells d → cell_offset entered i ≡ cell_offset d i
  unfolding cell_offset
  entered-cell_offset i h = rw (
    entered-n_cells,
    entered_header,
    lt→ltb i (n_cells d) h,
    lt→ltb i (n_cells d + 1) (omega arith),
    at_i,
    entered_offset i h,
  )
    where
      at_i : offset_pos d i ≡ header_size d + 2 * i
      at_i = omega (arith, s.inside, header_size_le d)

  entered-cell_offset_new : cell_offset entered (n_cells d) ≡ ok (first_cell_offset d - len)
  unfolding cell_offset
  entered-cell_offset_new = rw (
    entered-n_cells,
    entered_header,
    lt→ltb (n_cells d) (n_cells d + 1) (omega arith),
    at_end,
    le→leb (header_size d + 2 * n_cells d + 2) page_size (omega (arith, s.inside)),
    entered_offset_new,
  )
    where
      at_end : offset_pos d (n_cells d) ≡ header_size d + 2 * n_cells d
      at_end = omega (arith, s.inside, header_size_le d)

  pub enter_cell-Appended : Appended d entered (first_cell_offset d - len)
  enter_cell-Appended = record {
    slotted = entered-IsSlotted;
    ntype = entered_ntype;
    header = entered_header;
    count = entered-n_cells;
    first = entered_first;
    earlier = entered-cell_offset;
    last = entered-cell_offset_new;
    cells = λ p h. entered_frame p (inr (inl (omega arith))) ∙ kept p (inr h);
  }

  pub enter_cell_frame : (p : ℕ) → first_cell_offset d - len ≤ p → entered p ≡ e p
  enter_cell_frame p h = entered_frame p (inr (inl (omega arith)))

  pub enter-accepts :
      (need : ℕ)
      → first_cell_offset d - len + need ≤ page_size
      → enter (first_cell_offset d - len) need e ≡ ok entered
  unfolding enter enter_cell n_cells header_size ntype
  enter-accepts need h = rw (
    le→leb (first_cell_offset d - len + need) page_size h,
    same_n_cells,
    same_header,
    at_end,
    le→leb (header_size d + 2 * n_cells d + 2) page_size (omega (arith, s.inside)),
  )
    where
      same_n_cells : n_cells e ≡ n_cells d
      same_n_cells = get_le-ext 2 e d 1 λ q lo hi. kept q (inl (omega (arith, header_size_le d)))

      same_ntype : ntype e ≡ ntype d
      same_ntype = kept 0 (inl (omega (arith, header_size_le d)))

      same_header : header_size e ≡ header_size d
      same_header = rw same_ntype

      at_end : offset_pos d (n_cells d) ≡ header_size d + 2 * n_cells d
      at_end = omega (arith, s.inside, header_size_le d)

-- A cell that fits.
module _ (cell : List ℕ) (d : Bytes) (s : IsSlotted d) (h : 2 + length cell ≤ free_space d) where
  abbrev pub new_pos : ℕ
  new_pos = first_cell_offset d - length cell

  pub append_cell_fits : header_size d + 2 * n_cells d + 2 + length cell ≤ first_cell_offset d
  append_cell_fits = omega (arith, free_space_lem d s)

  pub append_cell_kept :
      (p : ℕ) → (p < new_pos) ⊎ (first_cell_offset d ≤ p) → put_bytes d new_pos cell p ≡ d p
  append_cell_kept p q = put_bytes_ne cell d new_pos p (omega (arith, append_cell_fits))

  pub append_cell-enter_cell :
      append_cell cell d ≡ ok (enter_cell d (n_cells d) new_pos (put_bytes d new_pos cell))
  unfolding append_cell
  append_cell-enter_cell =
      rw (short, enough, at_pos)
        (enter-accepts d (put_bytes d new_pos cell) (length cell) s append_cell_fits
          append_cell_kept 0 (omega (arith, s.inside)))
    where
      short : u16 (length cell) ≡ length cell
      short = omega (arith, s.inside, append_cell_fits)

      at_pos : sub16 (first_cell_offset d) (length cell) ≡ new_pos
      at_pos = omega (arith, s.inside, append_cell_fits)

      enough : leb (u16 (2 + length cell)) (free_space d) ≡ true
      enough = le→leb _ _ (omega (arith, append_cell_fits, s.inside))

  pub append_cell-Appended' :
      Appended d (enter_cell d (n_cells d) new_pos (put_bytes d new_pos cell)) new_pos
  append_cell-Appended' =
      enter_cell-Appended d (put_bytes d new_pos cell) (length cell) s append_cell_fits
        append_cell_kept

-- A cell that fits into a slotted page is appended: the copy of its bytes is the last cell, and the
-- other cells stay where they are and as they are.
pub append_cell-Appended :
    (cell : List ℕ) (d : Bytes)
    → IsSlotted d
    → 2 + length cell ≤ free_space d
    → (t : Bytes) × (append_cell cell d ≡ ok t)
      × Appended d t (first_cell_offset d - length cell)
      × (slice (length cell) t (first_cell_offset d - length cell) ≡ cell)
append_cell-Appended cell d s h =
    (t, append_cell-enter_cell cell d s h, append_cell-Appended' cell d s h, copied)
  where
    e : Bytes
    e = put_bytes d (new_pos cell d s h) cell

    t : Bytes
    t = enter_cell d (n_cells d) (new_pos cell d s h) e

    copied : slice (length cell) t (first_cell_offset d - length cell) ≡ cell
    copied =
        slice-ext (length cell) t e (first_cell_offset d - length cell) (λ p lo hi.
          enter_cell_frame d e (length cell) s (append_cell_fits cell d s h)
            (append_cell_kept cell d s h) p lo)
        ∙ slice-put_bytes cell d (first_cell_offset d - length cell)

-- A cell that does not fit is refused by the assertion.
pub append_cell_full :
    (cell : List ℕ) (d : Bytes)
    → length cell < 65534
    → free_space d < 2 + length cell
    → append_cell cell d ≡ panic
unfolding append_cell
append_cell_full cell d small h =
    let short : u16 (length cell) ≡ length cell = omega arith in
    rw (short, gt→leb (u16 (2 + length cell)) (free_space d) (omega arith))
