-- ===== src/Node/Copy.antt =====
-- The sizes of stored cells, and the operations that copy cells from one page to another or insert
-- them between others.
use frostfire.Prelude.{
  ℕ, zero, suc, ◌+◌, ◌-◌, ◌*◌, List, ltb, leb, ◌==◌, if◌then◌else◌, Result, ok, panic, ◌>>=◌,
}
use frostfire.Bytes.{Bytes, page_size, put_le, put_bytes}
use frostfire.Node.Defs.{
  node_leaf, node_internal, leaf_header_size, internal_header_size, leaf_cell_header,
  internal_cell_header, u16, sub16, read_le, read_slice, ntype, n_cells, first_cell_offset,
  set_n_cells, set_first_cell_offset, header_size, offset_pos, cell_offset, free_space,
  internal_cell_size, append_cell, encode_internal_cell, rightmost_child, set_rightmost_child,
}

-- The bytes that the cell at `pos` takes.
unfoldable pub leaf_size : Bytes → ℕ → Result ℕ
leaf_size d pos = do
  keylen ← read_le 2 d pos
  vallen ← read_le 2 d (u16 (pos + 2))
  flag ← read_le 1 d (u16 (pos + 4))
  ok (u16 (u16 (leaf_cell_header + keylen) + (if flag == 1 then 8 else vallen)))

unfoldable pub internal_size : Bytes → ℕ → Result ℕ
internal_size d pos = do
  keylen ← read_le 2 d (u16 (pos + 8))
  ok (u16 (internal_cell_header + keylen))

unfoldable pub cell_size : Bytes → ℕ → Result ℕ
unfolding leaf_size internal_size
cell_size d idx = do
  pos ← cell_offset d idx
  if ntype d == node_leaf then leaf_size d pos else internal_size d pos

unfoldable pub leaf_cell_size_at : Bytes → ℕ → Result ℕ
unfolding leaf_size
leaf_cell_size_at d idx = do
  pos ← read_le 2 d (u16 (leaf_header_size + u16 (idx * 2)))
  leaf_size d pos

unfoldable pub internal_cell_size_at : Bytes → ℕ → Result ℕ
unfolding internal_size
internal_cell_size_at d idx = do
  pos ← read_le 2 d (u16 (internal_header_size + u16 (idx * 2)))
  internal_size d pos

unfoldable pub leaf_cell_overflow_id : Bytes → ℕ → Result ℕ
leaf_cell_overflow_id d idx = do
  pos ← cell_offset d idx
  flag ← read_le 1 d (u16 (pos + 4))
  if flag == 1
      then (read_le 2 d pos >>= λ keylen. read_le 8 d (u16 (u16 (pos + leaf_cell_header) + keylen)))
      else ok 0

-- The source page and the index in it, then the page that is copied to.
unfoldable pub copy_cell : Bytes → ℕ → Bytes → Result Bytes
unfolding cell_size
copy_cell src src_idx dst = do
  pos ← cell_offset src src_idx
  size ← cell_size src src_idx
  cell ← read_slice size src pos
  append_cell cell dst

-- The offsets from `idx` on make room for another one.
unfoldable pub shift_offsets : ℕ → ℕ → Bytes → Result Bytes
shift_offsets n idx d =
    let off = offset_pos d idx in
    let end = u16 (header_size d + u16 (n * 2)) in
    let shifted : Result Bytes =
      read_slice (end - off) d off >>= λ tail. ok (put_bytes d (u16 (off + 2)) tail) in
    if ltb idx n
    then (if leb off end then (if leb (off + 2) page_size then shifted else panic) else panic)
    else ok d

-- The last part of copyCellAt and insertInternalCellAt, on the page that has the cell at `pos`.
unfoldable pub enter_at : ℕ → ℕ → ℕ → ℕ → Bytes → Result Bytes
unfolding shift_offsets
enter_at n idx pos need d =
    let entered : Result Bytes = shift_offsets n idx d >>= λ e.
    if leb (offset_pos d idx + 2) page_size
    then ok
        (set_n_cells (u16 (n + 1)) (set_first_cell_offset pos (put_le 2 e (offset_pos d idx) pos)))
    else panic in
    if leb (pos + need) page_size then entered else panic

unfoldable pub copy_cell_at : ℕ → Bytes → ℕ → Bytes → Result Bytes
unfolding enter_at cell_size
copy_cell_at dst_idx src src_idx dst =
    let copied : Result Bytes = (do
      pos ← cell_offset src src_idx
      size ← cell_size src src_idx
      if leb (u16 (2 + size)) (free_space dst)
          then (let new_pos = sub16 (first_cell_offset dst) size in
              (read_slice size src pos >>= λ cell.
              enter_at (n_cells dst) dst_idx new_pos 0 (put_bytes dst new_pos cell)))
          else panic) in
    if leb dst_idx (n_cells dst) then copied else panic

unfoldable pub insert_internal_cell_at : ℕ → ℕ → List ℕ → Bytes → Result Bytes
unfolding enter_at
insert_internal_cell_at dst_idx child key d =
    let new_pos = sub16 (first_cell_offset d) (internal_cell_size key) in
    let inserted : Result Bytes =
      enter_at (n_cells d) dst_idx new_pos internal_cell_header
        (encode_internal_cell child key d new_pos) in
    if leb dst_idx (n_cells d)
    then (if leb (u16 (2 + internal_cell_size key)) (free_space d) then inserted else panic)
    else panic

-- The loop of copyRangeLeaf and copyRangeInternal, which differ in the size of the header and in
-- how the size of a cell is read. The cells still to copy, the index of the next one, the page and
-- its number of cells and first offset.
unfoldable pub copy_range_loop :
    ℕ → (Bytes → ℕ → Result ℕ) → Bytes → ℕ → ℕ → Bytes → ℕ → ℕ → Result (Bytes × ℕ × ℕ)
copy_range_loop base size_of src zero src_idx d n first = ok (d, n, first)
copy_range_loop base size_of src (suc count) src_idx d n first = do
  cell_pos ← read_le 2 src (u16 (base + u16 (src_idx * 2)))
  cell_len ← size_of src cell_pos
  cell ← read_slice cell_len src cell_pos
  let new_pos = sub16 first cell_len
  let off = u16 (base + u16 (n * 2))
  let rest =
      copy_range_loop base size_of src count (u16 (src_idx + 1))
        (put_le 2 (put_bytes d new_pos cell) off new_pos) (u16 (n + 1)) new_pos
  if leb new_pos page_size then (if leb (off + 2) page_size then rest else panic) else panic

unfoldable pub copy_range_from : ℕ → (Bytes → ℕ → Result ℕ) → Bytes → ℕ → ℕ → Bytes → Result Bytes
unfolding copy_range_loop
copy_range_from base size_of src src_start count dst =
    copy_range_loop base size_of src count src_start dst (n_cells dst) (first_cell_offset dst)
    >>= λ (d, n, first). ok (set_first_cell_offset first (set_n_cells n d))

unfoldable pub copy_range : Bytes → ℕ → ℕ → Bytes → Result Bytes
unfolding copy_range_from leaf_size internal_size
copy_range src src_start count dst =
    let copied : Result Bytes =
      if ntype src == node_leaf
      then copy_range_from leaf_header_size leaf_size src src_start count dst
      else copy_range_from internal_header_size internal_size src src_start count dst in
    if ntype src == ntype dst
    then (if leb (u16 (src_start + count)) (n_cells src)
        then (if count == 0 then ok dst else copied)
        else panic)
    else panic

unfoldable pub copy_without_cell : Bytes → ℕ → Bytes → Result Bytes
unfolding copy_range
copy_without_cell src remove_idx dst =
    let copied : Result Bytes = (do
      d ← copy_range src 0 remove_idx dst
      e ← copy_range src (u16 (remove_idx + 1)) (sub16 (sub16 (n_cells src) remove_idx) 1) d
      ok (if ntype e == node_internal then set_rightmost_child (rightmost_child src) e else e)) in
    if ntype src == ntype dst
    then (if leb remove_idx (n_cells src) then copied else panic)
    else panic
