-- ===== src/Node/Tests.antt =====
-- Runs of the searches and of the appending on pages with two cells.
use frostfire.Prelude.{
  ℕ, zero, suc, ◌-◌, ◌≤◌, ◌<◌, ◌≡◌, refl, inl, true, List, [], ◌∷◌, arith, some, Result, ok, err,
  panic, ◌>>=◌, subst, sym,
}
use frostfire.Bytes.{Bytes, write, put_le, get_le, slice, put_bytes}
use frostfire.Node.Key.{compare}
use frostfire.Node.Defs.{
  cell_offset, node_leaf, node_internal, ntype, n_cells, first_cell_offset, header_size, free_space,
  leaf_key, internal_key, leaf_cell_size, internal_cell_size, leaf_key_at, internal_key_at,
  search_leaf, search_internal, search_leaf_loop, enter_cell, enter, append_cell, encode_leaf_cell,
  append_leaf_cell, encode_internal_cell, append_internal_cell, init_node, set_n_cells,
  set_first_cell_offset,
}
use frostfire.Node.Search.{IsSorted, Finds, Descends, search_leaf-Finds, search_internal-Descends}
use frostfire.Node.Append.{Appended, append_cell-Appended}
use frostfire.Node.Cells.{IsPage, Gains, init_node-IsPage}
use frostfire.Node.Leaf.{append_leaf_cell-Appended}
use frostfire.Node.Copy.{leaf_size, cell_size, copy_cell, copy_range}
use frostfire.Node.Range.{copy_cells, copy_range-copy_cells}
use frostfire.Node.Internal.{append_internal_cell-Appended}

abbrev zeros : Bytes
zeros = λ p. 0

abbrev page_or_zeros : Result Bytes → Bytes
page_or_zeros (ok d) = d
page_or_zeros (err e) = zeros
page_or_zeros panic = zeros

abbrev leaf : Bytes
leaf = page_or_zeros (
    append_leaf_cell (97 ∷ []) (1 ∷ []) 0 (init_node node_leaf zeros) >>= λ d.
    append_leaf_cell (99 ∷ []) (2 ∷ []) 0 d)

abbrev inner : Bytes
inner = page_or_zeros (
    append_internal_cell 8 (97 ∷ []) (init_node node_internal zeros) >>= λ d.
    append_internal_cell 9 (99 ∷ []) d)

abbrev names : ℕ → List ℕ
names zero = 97 ∷ []
names (suc i) = 99 ∷ []

names-IsSorted : IsSorted names 2
unfolding compare
names-IsSorted zero zero p q = absurd (omega arith)
names-IsSorted zero (suc j) p q = refl
names-IsSorted (suc i) zero p q = absurd (omega arith)
names-IsSorted (suc i) (suc j) p q = absurd (omega arith)

leaf-names : (i : ℕ) → i < 2 → leaf_key_at leaf i ≡ ok (names i)
unfolding leaf_key_at leaf_key append_leaf_cell leaf_cell_size free_space header_size ntype n_cells
    first_cell_offset init_node set_n_cells set_first_cell_offset encode_leaf_cell enter_cell enter
    write put_le get_le slice put_bytes
leaf-names zero h = refl
leaf-names (suc zero) h = refl
leaf-names (suc (suc i)) h = absurd (omega arith)

leaf_count : n_cells leaf ≡ 2
unfolding leaf_key_at leaf_key append_leaf_cell leaf_cell_size free_space header_size ntype n_cells
    first_cell_offset init_node set_n_cells set_first_cell_offset encode_leaf_cell enter_cell enter
    write put_le get_le slice put_bytes
leaf_count = refl

search_leaf-Finds_example : Finds names (n_cells leaf) (98 ∷ []) (search_leaf leaf (98 ∷ []))
search_leaf-Finds_example =
    search_leaf-Finds leaf names (98 ∷ [])
      (subst (λ n. IsSorted names n) (sym leaf_count) names-IsSorted)
      (subst (λ n. (i : ℕ) → i < n → leaf_key_at leaf i ≡ ok (names i)) (sym leaf_count) leaf-names)

found : search_leaf leaf (99 ∷ []) ≡ some (ok (1, true))
unfolding leaf_key_at leaf_key append_leaf_cell leaf_cell_size free_space header_size ntype n_cells
    first_cell_offset init_node set_n_cells set_first_cell_offset encode_leaf_cell enter_cell enter
    write put_le get_le slice put_bytes search_leaf search_leaf_loop compare
found = refl

inner-names : (i : ℕ) → i < 2 → internal_key_at inner i ≡ ok (names i)
unfolding internal_key_at internal_key append_internal_cell internal_cell_size free_space
    header_size ntype n_cells first_cell_offset init_node set_n_cells set_first_cell_offset
    encode_internal_cell enter_cell enter write put_le get_le slice put_bytes
inner-names zero h = refl
inner-names (suc zero) h = refl
inner-names (suc (suc i)) h = absurd (omega arith)

inner_count : n_cells inner ≡ 2
unfolding internal_key_at internal_key append_internal_cell internal_cell_size free_space
    header_size ntype n_cells first_cell_offset init_node set_n_cells set_first_cell_offset
    encode_internal_cell enter_cell enter write put_le get_le slice put_bytes
inner_count = refl

search_internal-Descends_example :
    Descends names (n_cells inner) (97 ∷ []) (search_internal inner (97 ∷ []))
search_internal-Descends_example =
    search_internal-Descends inner names (97 ∷ [])
      (subst (λ n. IsSorted names n) (sym inner_count) names-IsSorted)
      (subst (λ n. (i : ℕ) → i < n → internal_key_at inner i ≡ ok (names i)) (sym inner_count)
        inner-names)

abbrev blank : ℕ → Bytes
blank t = init_node t zeros

blank_space : (4000 ≤ free_space (blank node_leaf)) × (4000 ≤ free_space (blank node_internal))
unfolding free_space header_size ntype n_cells first_cell_offset init_node set_n_cells
    set_first_cell_offset write put_le get_le
blank_space = (omega arith, omega arith)

append_cell-Appended_example :
    (t : Bytes) × (append_cell (7 ∷ 8 ∷ []) (blank node_leaf) ≡ ok t)
    × Appended (blank node_leaf) t (first_cell_offset (blank node_leaf) - 2)
    × (slice 2 t (first_cell_offset (blank node_leaf) - 2) ≡ 7 ∷ 8 ∷ [])
append_cell-Appended_example =
    append_cell-Appended (7 ∷ 8 ∷ []) (blank node_leaf) (init_node-IsPage node_leaf zeros).0.slotted
      (omega (arith, blank_space.0))

append_leaf_cell-Appended_example :
    (t : Bytes) × (append_leaf_cell (97 ∷ []) (1 ∷ []) 0 (blank node_leaf) ≡ ok t)
    × Gains (blank node_leaf) (97 ∷ []) t
unfolding leaf_cell_size
append_leaf_cell-Appended_example =
    append_leaf_cell-Appended (97 ∷ []) (1 ∷ []) 0 (blank node_leaf)
      (init_node-IsPage node_leaf zeros).0 (init_node-IsPage node_leaf zeros).2
      (inl (refl, omega arith)) (omega arith) (omega (arith, blank_space.0))

append_internal_cell-Appended_example :
    (t : Bytes) × (append_internal_cell 8 (97 ∷ []) (blank node_internal) ≡ ok t)
    × Gains (blank node_internal) (97 ∷ []) t
unfolding internal_cell_size
append_internal_cell-Appended_example =
    append_internal_cell-Appended 8 (97 ∷ []) (blank node_internal)
      (init_node-IsPage node_internal zeros).0 (init_node-IsPage node_internal zeros).2
      (omega arith) (omega (arith, blank_space.1))

init_node-IsPage_twice :
    IsPage (blank node_leaf)
    × (n_cells (blank node_leaf) ≡ 0)
    × (ntype (blank node_leaf) ≡ node_leaf)
init_node-IsPage_twice = init_node-IsPage node_leaf zeros

abbrev copied : Bytes
copied = page_or_zeros (copy_cells leaf 0 2 (blank node_leaf))

copied_one_by_one : copy_cells leaf 0 2 (blank node_leaf) ≡ ok copied
unfolding leaf_key_at leaf_key append_leaf_cell copy_cells copy_cell append_cell cell_offset
    cell_size leaf_size leaf_cell_size free_space header_size ntype n_cells first_cell_offset
    init_node set_n_cells set_first_cell_offset encode_leaf_cell enter_cell enter write put_le
    get_le slice put_bytes
copied_one_by_one = refl

same_type : ntype leaf ≡ ntype (blank node_leaf)
unfolding leaf_key_at leaf_key append_leaf_cell copy_cells copy_cell append_cell cell_offset
    cell_size leaf_size leaf_cell_size free_space header_size ntype n_cells first_cell_offset
    init_node set_n_cells set_first_cell_offset encode_leaf_cell enter_cell enter write put_le
    get_le slice put_bytes
same_type = refl

copy_range-copy_cells_example : copy_range leaf 0 2 (blank node_leaf) ≡ ok copied
copy_range-copy_cells_example =
    copy_range-copy_cells leaf (blank node_leaf) 0 2 (init_node-IsPage node_leaf zeros).0.slotted
      same_type (omega (arith, leaf_count)) copied_one_by_one
