-- ===== src/Node/Range.antt =====
-- copyRange copies as copyCell does, cell by cell.
use frostfire.Prelude.{
  ℕ, zero, suc, ◌+◌, ◌-◌, ◌*◌, ◌≤◌, ◌<◌, ◌≡◌, ◌⊎◌, refl, inl, inr, sym, ap, fun_ext, ◌∙◌, List,
  arith, leb, ◌==◌, length, Result, ok, ◌>>=◌, ==-refl, ne→==, bind_ok, ok_injective, subst, le→leb,
  leb→le, Bool-cases, dec_lt,
}
use frostfire.Bytes.{Bytes, page_size, put_le, slice, put_bytes}
use frostfire.Bytes.Codec.{put_le_ne, put_le-agree, put_bytes-agree, length-slice}
use frostfire.Node.Defs.{
  node_leaf, leaf_header_size, internal_header_size, u16, sub16, read_le, read_slice, ntype,
  n_cells, first_cell_offset, set_n_cells, set_first_cell_offset, header_size, offset_pos,
  cell_offset, free_space, append_cell, enter_cell,
}
use frostfire.Node.Copy.{
  leaf_size, internal_size, cell_size, copy_cell, copy_range_loop, copy_range_from, copy_range,
}
use frostfire.Node.Append.{
  IsSlotted, append_cell-enter_cell, append_cell-Appended', append_cell_fits, header_size_le,
}

-- The header that the loop writes in the end.
abbrev with_header : Bytes → ℕ → ℕ → Bytes
with_header d n first = set_first_cell_offset first (set_n_cells n d)

-- The pages agree but for their counts of cells and first offsets.
abbrev Same : Bytes → Bytes → Type 0
Same d e = (q : ℕ) → (q < 1) ⊎ (5 ≤ q) → d q ≡ e q

with_header-Same :
    (d e : Bytes) (n first : ℕ) → Same d e → with_header d n first ≡ with_header e n first
unfolding set_first_cell_offset set_n_cells
with_header-Same d e n first same = fun_ext λ q.
    put_le-agree 2 (put_le 2 d 1 n) (put_le 2 e 1 n) 3 first q
      λ out. put_le-agree 2 d e 1 n q λ out'. same q (omega arith)

with_header_swap :
    (d : Bytes) (n first : ℕ)
    → set_n_cells n (set_first_cell_offset first d) ≡ with_header d n first
unfolding set_first_cell_offset set_n_cells
with_header_swap d n first = fun_ext λ q. elim (dec_lt q 3) [
  | yes low ↦
      put_le-agree 2 (put_le 2 d 3 first) d 1 n q (λ out. put_le_ne 2 d 3 first q (omega arith))
      ∙ sym (put_le_ne 2 (put_le 2 d 1 n) 3 first q (omega arith))
  | no high ↦
      put_le_ne 2 (put_le 2 d 3 first) 1 n q (omega arith)
      ∙ sym (put_le-agree 2 (put_le 2 d 1 n) d 3 first q (λ out. put_le_ne 2 d 1 n q (omega arith)))
]

with_header_ne : (d : Bytes) (n first : ℕ) → Same (with_header d n first) d
unfolding set_first_cell_offset set_n_cells
with_header_ne d n first q h =
    put_le_ne 2 _ 3 first q (omega arith) ∙ put_le_ne 2 d 1 n q (omega arith)

-- The cells from `idx` on, copied one by one.
unfoldable pub copy_cells : Bytes → ℕ → ℕ → Bytes → Result Bytes
copy_cells src idx zero dst = ok dst
copy_cells src idx (suc count) dst = copy_cell src idx dst >>= copy_cells src (u16 (idx + 1)) count

-- The page after one round of the loop, but for its header.
abbrev one_more : Bytes → ℕ → ℕ → ℕ → List ℕ → Bytes
one_more d base n pos cell = put_le 2 (put_bytes d pos cell) (u16 (base + u16 (n * 2))) pos

one_more-Same :
    (d e : Bytes) (base n pos : ℕ) (cell : List ℕ)
    → Same d e
    → Same (one_more d base n pos cell) (one_more e base n pos cell)
one_more-Same d e base n pos cell same q h =
    put_le-agree 2 (put_bytes d pos cell) (put_bytes e pos cell) _ pos q
      λ out. put_bytes-agree cell d e pos q (same q h)

append_cell-ok :
    (cell : List ℕ) (d : Bytes) {t : Bytes}
    → length cell ≤ page_size
    → append_cell cell d ≡ ok t
    → 2 + length cell ≤ free_space d
unfolding append_cell
append_cell-ok cell d small h =
    elim (Bool-cases (leb (u16 (2 + u16 (length cell))) (free_space d))) [
      | inl fits ↦ omega (arith, leb→le _ _ fits)
      | inr full ↦ ground (arith, full)
    ]

-- What a call of copyCell that succeeds has read.
record Copied (size_of : Bytes → ℕ → Result ℕ) (src : Bytes) (idx : ℕ) (dst t : Bytes)
    : Type 0 where
  pos : ℕ
  size : ℕ
  at_pos : read_le 2 src (offset_pos src idx) ≡ ok pos
  sized : size_of src pos ≡ ok size
  bytes : read_slice size src pos ≡ ok (slice size src pos)
  inside : pos + size ≤ page_size
  appended : append_cell (slice size src pos) dst ≡ ok t

module _ (src : Bytes) (base : ℕ) (size_of : Bytes → ℕ → Result ℕ)
    (src_header : header_size src ≡ base)
    (src_size : (i : ℕ) → cell_size src i ≡ (cell_offset src i >>= size_of src)) where
  cell_offset-ok :
      (i : ℕ) {pos : ℕ} → cell_offset src i ≡ ok pos → read_le 2 src (offset_pos src i) ≡ ok pos
  unfolding cell_offset
  cell_offset-ok i h = ground (arith, h)

  copy_cell-Copied :
      (idx : ℕ) (dst : Bytes) {t : Bytes}
      → copy_cell src idx dst ≡ ok t
      → Copied size_of src idx dst t
  unfolding copy_cell
  copy_cell-Copied idx dst {t} h =
      let (pos, at_pos, h1) = bind_ok (cell_offset src idx) _ h in
      let (size, sized, h2) = bind_ok (cell_size src idx) _ h1 in
      let (cell, read, h3) = bind_ok (read_slice size src pos) _ h2 in
      elim (Bool-cases (leb (pos + size) page_size)) [
        | inl yes_inside ↦ record {
          pos = pos;
          size = size;
          at_pos = cell_offset-ok idx at_pos;
          sized = sym (ap (λ r. r >>= size_of src) at_pos) ∙ sym (src_size idx) ∙ sized;
          bytes = rw yes_inside;
          inside = leb→le _ _ yes_inside;
          appended = subst (λ c. append_cell c dst ≡ ok t) (ground (arith, read, yes_inside)) h3;
        }
        | inr outside ↦ ground (arith, read, outside)
      ]

  one_more-enter_cell :
      (d e : Bytes) (pos : ℕ) (cell : List ℕ)
      → Same d e
      → header_size e ≡ base
      → with_header (one_more d base (n_cells e) pos cell) (u16 (n_cells e + 1)) pos
        ≡ enter_cell e (n_cells e) pos (put_bytes e pos cell)
  unfolding enter_cell
  one_more-enter_cell d e pos cell same header =
      with_header-Same (one_more d base (n_cells e) pos cell) (one_more e base (n_cells e) pos cell)
        _ pos (one_more-Same d e base (n_cells e) pos cell same)
      ∙ sym (with_header_swap (one_more e base (n_cells e) pos cell) _ pos)
      ∙ (rw header refl)

  -- The loop, from a page that agrees with `e` up to the header.
  copy_range_loop-copy_cells :
      (count idx : ℕ) (d e : Bytes) {t : Bytes}
      → Same d e
      → IsSlotted e
      → header_size e ≡ base
      → (count ≡ 0 → with_header d (n_cells e) (first_cell_offset e) ≡ e)
      → copy_cells src idx count e ≡ ok t
      → (copy_range_loop base size_of src count idx d (n_cells e) (first_cell_offset e)
          >>= λ (d, n, first). ok (set_first_cell_offset first (set_n_cells n d)))
        ≡ ok t
  unfolding copy_range_loop copy_cells
  copy_range_loop-copy_cells zero idx d e same s header made h = ap ok (made refl) ∙ h
  copy_range_loop-copy_cells (suc count) idx d e {t} same s header made h =
      let (e', copied, rest) = bind_ok (copy_cell src idx e) _ h in
      let c = copy_cell-Copied idx e copied in
      let cell : List ℕ = slice c.size src c.pos in
      let len : length cell ≡ c.size = length-slice c.size src c.pos in
      let fits : 2 + length cell ≤ free_space e =
        append_cell-ok cell e (omega (arith, len, c.inside)) c.appended in
      let pos : ℕ = first_cell_offset e - length cell in
      let a = append_cell-Appended' cell e s fits in
      let next : Bytes = enter_cell e (n_cells e) pos (put_bytes e pos cell) in
      let room : header_size e + 2 * n_cells e + 2 + length cell ≤ first_cell_offset e =
        append_cell_fits cell e s fits in
      let is_next : e' ≡ next =
        ok_injective (sym c.appended ∙ append_cell-enter_cell cell e s fits) in
      let made' : with_header (one_more d base (n_cells e) pos cell) (u16 (n_cells e + 1)) pos
          ≡ next =
        one_more-enter_cell d e pos cell same header in
      let at_pos : sub16 (first_cell_offset e) c.size ≡ pos = omega (arith, len, s.inside, room) in
      let count' : n_cells next ≡ u16 (n_cells e + 1) =
        omega (arith, a.count, s.inside, room, header_size_le e) in
      let slot : u16 (base + u16 (n_cells e * 2)) + 2 ≤ page_size =
        omega (arith, header, s.inside, room) in
      let made'' : with_header (one_more d base (n_cells e) pos cell) (n_cells next)
            (first_cell_offset next)
          ≡ next =
        rw (count', a.first) made' in
      let ih =
        copy_range_loop-copy_cells count (u16 (idx + 1)) (one_more d base (n_cells e) pos cell) next
          (λ q out.
            sym (
              with_header_ne (one_more d base (n_cells e) pos cell) (n_cells next)
                (first_cell_offset next) q out)
            ∙ ap (λ f. f q) made'')
          a.slotted (a.header ∙ header) (λ z. made'')
          (subst (λ x. copy_cells src (u16 (idx + 1)) count x ≡ ok t) is_next rest) in
      let ih' = rw (count', a.first) at ih in
      rw
        (
          sym (ap (λ b. read_le 2 src (u16 (b + u16 (idx * 2)))) src_header) ∙ c.at_pos,
          c.sized,
          c.bytes,
          at_pos,
          le→leb pos page_size (omega (arith, s.inside)),
          le→leb (u16 (base + u16 (n_cells e * 2)) + 2) page_size slot,
        )
        ih'

copy_range_from-copy_cells :
    (src : Bytes) (base : ℕ) (size_of : Bytes → ℕ → Result ℕ) (start count : ℕ) (dst : Bytes)
    {t : Bytes}
    → header_size src ≡ base
    → ((i : ℕ) → cell_size src i ≡ (cell_offset src i >>= size_of src))
    → IsSlotted dst
    → header_size dst ≡ base
    → copy_cells src start (suc count) dst ≡ ok t
    → copy_range_from base size_of src start (suc count) dst ≡ ok t
unfolding copy_range_from
copy_range_from-copy_cells src base size_of start count dst src_header src_size s header h =
    copy_range_loop-copy_cells src base size_of src_header src_size (suc count) start dst dst
      (λ q out. refl) s header (λ z. absurd (omega arith)) h

-- Where copying the cells of a range one by one with copyCell succeeds, between pages of one type,
-- into a slotted page and inside the source's cells, copyRange gives the same page, byte for byte.
pub copy_range-copy_cells :
    (src dst : Bytes) (start count : ℕ) {t : Bytes}
    → IsSlotted dst
    → ntype src ≡ ntype dst
    → start + count ≤ n_cells src
    → copy_cells src start count dst ≡ ok t
    → copy_range src start count dst ≡ ok t
unfolding copy_range cell_size header_size copy_cells
copy_range-copy_cells src dst start zero s type inside h =
    rw (type, ==-refl (ntype dst), le→leb (u16 (start + 0)) (n_cells src) (omega arith)) h
copy_range-copy_cells src dst start (suc count) s type inside h =
    elim (Bool-cases (ntype src == node_leaf)) [
      | inl leaf ↦
          rw
            (
              ap (λ x. ntype src == x) (sym type) ∙ ==-refl (ntype src),
              le→leb (u16 (start + suc count)) (n_cells src) (omega arith),
              leaf,
              ne→== (suc count) 0 (omega arith),
            )
            (copy_range_from-copy_cells src leaf_header_size leaf_size start count dst
              (rw leaf refl) (λ i. rw leaf refl) s (rw (sym type, leaf) refl) h)
      | inr inner ↦
          rw
            (
              ap (λ x. ntype src == x) (sym type) ∙ ==-refl (ntype src),
              le→leb (u16 (start + suc count)) (n_cells src) (omega arith),
              inner,
              ne→== (suc count) 0 (omega arith),
            )
            (copy_range_from-copy_cells src internal_header_size internal_size start count dst
              (rw inner refl) (λ i. rw inner refl) s (rw (sym type, inner) refl) h)
    ]
