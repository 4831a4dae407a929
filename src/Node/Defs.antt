-- ===== src/Node/Defs.antt =====
-- The page accessors, the searches, and the operations that add cells to a page.
use frostfire.Prelude.{
  ℕ, zero, suc, ◌+◌, ◌-◌, ◌*◌, ◌/◌, ◌%◌, Bool, true, false, List, ltb, leb, ◌==◌, if◌then◌else◌,
  length, Option, none, some, Result, ok, err, panic, ◌>>=◌,
}
use frostfire.Bytes.{Bytes, page_size, put_le, get_le, slice, put_bytes, write}
use frostfire.Node.Key.{less, equal, greater, compare}

abbrev pub node_internal : ℕ
node_internal = 1

abbrev pub node_leaf : ℕ
node_leaf = 2

abbrev pub leaf_header_size : ℕ
leaf_header_size = 5

abbrev pub internal_header_size : ℕ
internal_header_size = 13

abbrev pub leaf_cell_header : ℕ
leaf_cell_header = 5

abbrev pub internal_cell_header : ℕ
internal_cell_header = 10

abbrev pub min_cells_per_page : ℕ
min_cells_per_page = 4

abbrev pub max_key_size : ℕ
max_key_size =
    (page_size - internal_header_size - (internal_cell_header + 2) * min_cells_per_page)
    / min_cells_per_page

abbrev pub max_inline_size : ℕ
max_inline_size =
    (page_size - leaf_header_size - (leaf_cell_header + 2) * min_cells_per_page)
    / min_cells_per_page

-- `uint16`
abbrev pub u16 : ℕ → ℕ
u16 a = a % 65536

abbrev pub sub16 : ℕ → ℕ → ℕ
sub16 a b = (a + 65536 - b) % 65536

-- `binary.LittleEndian` reads of `d[p:p+n]`, and the slice itself, inside the page.
abbrev pub read_le : ℕ → Bytes → ℕ → Result ℕ
read_le n d p = if leb (p + n) page_size then ok (get_le n d p) else panic

abbrev pub read_slice : ℕ → Bytes → ℕ → Result (List ℕ)
read_slice n d p = if leb (p + n) page_size then ok (slice n d p) else panic

unfoldable pub ntype : Bytes → ℕ
ntype d = d 0

unfoldable pub n_cells : Bytes → ℕ
n_cells d = get_le 2 d 1

unfoldable pub first_cell_offset : Bytes → ℕ
first_cell_offset d = get_le 2 d 3

unfoldable pub set_n_cells : ℕ → Bytes → Bytes
set_n_cells c d = put_le 2 d 1 c

unfoldable pub set_first_cell_offset : ℕ → Bytes → Bytes
set_first_cell_offset off d = put_le 2 d 3 off

unfoldable pub header_size : Bytes → ℕ
unfolding ntype
header_size d = if ntype d == node_leaf then leaf_header_size else internal_header_size

-- Where the offset of cell `idx` stands.
abbrev pub offset_pos : Bytes → ℕ → ℕ
offset_pos d idx = u16 (header_size d + u16 (idx * 2))

unfoldable pub cell_offset : Bytes → ℕ → Result ℕ
cell_offset d idx = if ltb idx (n_cells d) then read_le 2 d (offset_pos d idx) else panic

-- The key of a cell at `pos`, by the type of the page.
unfoldable pub leaf_key : Bytes → ℕ → Result (List ℕ)
leaf_key d pos = do keylen ← read_le 2 d pos; read_slice keylen d (u16 (pos + leaf_cell_header))

unfoldable pub internal_key : Bytes → ℕ → Result (List ℕ)
internal_key d pos = do
  keylen ← read_le 2 d (u16 (pos + 8))
  read_slice keylen d (u16 (pos + internal_cell_header))

unfoldable pub key : Bytes → ℕ → Result (List ℕ)
unfolding leaf_key internal_key
key d idx = do
  pos ← cell_offset d idx
  if ntype d == node_leaf then leaf_key d pos else internal_key d pos

unfoldable pub total_cells_size : Bytes → ℕ
total_cells_size d = sub16 page_size (first_cell_offset d)

unfoldable pub free_space : Bytes → ℕ
free_space d = sub16 (first_cell_offset d) (u16 (header_size d + u16 (n_cells d * 2)))

unfoldable pub underfull : Bytes → Bool
unfolding free_space
underfull d =
    if ltb (n_cells d) min_cells_per_page
    then true
    else ltb (sub16 page_size (free_space d)) (page_size / 4)

unfoldable pub leaf_cell_size : List ℕ → List ℕ → ℕ
leaf_cell_size key value =
    let inline_size = leaf_cell_header + length key + length value in
    if leb inline_size max_inline_size
    then u16 inline_size
    else u16 (leaf_cell_header + length key + 8)

unfoldable pub internal_cell_size : List ℕ → ℕ
internal_cell_size key = u16 (internal_cell_header + length key)

-- One round of searchLeaf and searchInternal reads the key of cell `mid` without the guard of
-- `cell_offset`.
unfoldable pub leaf_key_at : Bytes → ℕ → Result (List ℕ)
unfolding leaf_key
leaf_key_at d mid = do pos ← read_le 2 d (u16 (leaf_header_size + u16 (mid * 2))); leaf_key d pos

unfoldable pub internal_key_at : Bytes → ℕ → Result (List ℕ)
unfolding internal_key
internal_key_at d mid = do
  pos ← read_le 2 d (u16 (internal_header_size + u16 (mid * 2)))
  internal_key d pos

-- The loop of searchLeaf; `none` is fuel that ran out.
unfoldable pub search_leaf_loop : ℕ → Bytes → List ℕ → ℕ → ℕ → Option (Result (ℕ × Bool))
search_leaf_loop zero d key lo hi = none
search_leaf_loop (suc fuel) d key lo hi =
    let mid = lo + (hi - lo) / 2 in
    let round : Option (Result (ℕ × Bool)) = elim (leaf_key_at d mid) [
      | err e ↦ some (err e)
      | panic ↦ some panic
      | ok k ↦ elim (compare key k) [
        | equal ↦ some (ok (mid, true))
        | less ↦ search_leaf_loop fuel d key lo mid
        | greater ↦ search_leaf_loop fuel d key (mid + 1) hi
      ]
    ] in
    if ltb lo hi then round else some (ok (lo, false))

unfoldable pub search_leaf : Bytes → List ℕ → Option (Result (ℕ × Bool))
search_leaf d key = search_leaf_loop (suc (n_cells d)) d key 0 (n_cells d)

unfoldable pub search_internal_loop : ℕ → Bytes → List ℕ → ℕ → ℕ → Option (Result ℕ)
search_internal_loop zero d key lo hi = none
search_internal_loop (suc fuel) d key lo hi =
    let mid = lo + (hi - lo) / 2 in
    let round : Option (Result ℕ) = elim (internal_key_at d mid) [
      | err e ↦ some (err e)
      | panic ↦ some panic
      | ok k ↦ elim (compare key k) [
        | less ↦ search_internal_loop fuel d key lo mid
        | equal ↦ search_internal_loop fuel d key (mid + 1) hi
        | greater ↦ search_internal_loop fuel d key (mid + 1) hi
      ]
    ] in
    if ltb lo hi then round else some (ok lo)

unfoldable pub search_internal : Bytes → List ℕ → Option (Result ℕ)
search_internal d key = search_internal_loop (suc (n_cells d)) d key 0 (n_cells d)

-- The last part of appendCell and of its variants: the offset of a cell that was written at `pos`
-- is entered behind the others.
unfoldable pub enter_cell : Bytes → ℕ → ℕ → Bytes → Bytes
unfolding set_n_cells set_first_cell_offset
enter_cell old idx pos d =
    set_n_cells (u16 (idx + 1)) (set_first_cell_offset pos (put_le 2 d (offset_pos old idx) pos))

-- The header is read from the page `d`, which has the cell already. `need` bytes at `pos` and the
-- slot of the offset are inside the page, or the slicing panics; a copy stops at the end of the
-- page.
unfoldable pub enter : ℕ → ℕ → Bytes → Result Bytes
unfolding enter_cell
enter pos need d =
    if leb (pos + need) page_size
    then (if leb (offset_pos d (n_cells d) + 2) page_size
        then ok (enter_cell d (n_cells d) pos d)
        else panic)
    else panic

unfoldable pub append_cell : List ℕ → Bytes → Result Bytes
unfolding enter
append_cell cell d =
    let cell_len = u16 (length cell) in
    if leb (u16 (2 + cell_len)) (free_space d)
    then (let pos = sub16 (first_cell_offset d) cell_len in enter pos 0 (put_bytes d pos cell))
    else panic

-- encodeLeafCell and encodeInternalCell, as the bytes that they write.
unfoldable pub encode_leaf_cell : List ℕ → List ℕ → ℕ → Bytes → ℕ → Bytes
encode_leaf_cell key value overflow_id d p =
    let lens = put_le 2 (put_le 2 d p (u16 (length key))) (p + 2) (u16 (length value)) in
    if overflow_id == 0
    then put_bytes (put_bytes (write lens (p + 4) 0) (p + 5) key) (p + 5 + length key) value
    else put_le 8 (put_bytes (write lens (p + 4) 1) (p + 5) key) (p + 5 + length key) overflow_id

unfoldable pub encode_internal_cell : ℕ → List ℕ → Bytes → ℕ → Bytes
encode_internal_cell child key d p =
    put_bytes (put_le 2 (put_le 8 d p child) (p + 8) (u16 (length key))) (p + 10) key

-- The bytes that encodeLeafCell slices without `copy`.
abbrev pub leaf_cell_need : List ℕ → ℕ → ℕ
leaf_cell_need key overflow_id = leaf_cell_header + length key + (if overflow_id == 0 then 0 else 8)

-- appendLeafCellWithOverflow
unfoldable pub append_leaf_cell : List ℕ → List ℕ → ℕ → Bytes → Result Bytes
unfolding enter encode_leaf_cell
append_leaf_cell key value overflow_id d =
    let cell_len = leaf_cell_size key value in
    if leb (u16 (2 + cell_len)) (free_space d)
    then (let pos = sub16 (first_cell_offset d) cell_len in
        enter pos (leaf_cell_need key overflow_id) (encode_leaf_cell key value overflow_id d pos))
    else panic

unfoldable pub append_internal_cell : ℕ → List ℕ → Bytes → Result Bytes
unfolding enter encode_internal_cell
append_internal_cell child key d =
    let cell_len = internal_cell_size key in
    if leb (u16 (2 + cell_len)) (free_space d)
    then (let pos = sub16 (first_cell_offset d) cell_len in
        enter pos internal_cell_header (encode_internal_cell child key d pos))
    else panic

unfoldable pub rightmost_child : Bytes → ℕ
rightmost_child d = get_le 8 d 5

unfoldable pub set_rightmost_child : ℕ → Bytes → Bytes
set_rightmost_child id d = put_le 8 d 5 id

unfoldable pub child : Bytes → ℕ → Result ℕ
unfolding rightmost_child cell_offset
child d idx =
    if ntype d == node_internal
    then (if leb idx (n_cells d)
        then (if idx == n_cells d
            then ok (rightmost_child d)
            else (cell_offset d idx >>= λ pos. read_le 8 d pos))
        else panic)
    else panic

unfoldable pub set_child : ℕ → ℕ → Bytes → Result Bytes
unfolding set_rightmost_child cell_offset
set_child idx id d =
    if ntype d == node_internal
    then (if leb idx (n_cells d)
        then (if idx == n_cells d
            then ok (set_rightmost_child id d)
            else (cell_offset d idx >>= λ pos.
                if leb (pos + 8) page_size then ok (put_le 8 d pos id) else panic))
        else panic)
    else panic

-- allocLeaf and allocInternal on the buffer of a page that was allocated.
unfoldable pub init_node : ℕ → Bytes → Bytes
unfolding set_n_cells set_first_cell_offset
init_node t d = set_first_cell_offset page_size (set_n_cells 0 (write d 0 t))
