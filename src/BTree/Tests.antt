-- ===== src/BTree/Tests.antt =====
-- Runs of the tree on the small tree of Forest.
use frostfire.Prelude.{ℕ, zero, suc, ◌+◌, ◌<◌, ◌≡◌, refl, false, [], ◌∷◌, arith, none, some, ok}
use frostfire.Bytes.{write, put_le, get_le, slice, put_bytes}
use frostfire.Node.{
  ntype, n_cells, first_cell_offset, header_size, free_space, leaf_key, leaf_cell_size, leaf_key_at,
  enter_cell, enter, encode_leaf_cell, append_leaf_cell, init_node, set_n_cells,
  set_first_cell_offset, cell_offset,
}
use frostfire.Node.Key.{compare}
use frostfire.BTree.Memory.{memory_pages}
use frostfire.BTree.Lookup.{stored_value, search_tree}
use frostfire.BTree.Update.{update_tree, insert, same_bytes}
use frostfire.BTree.Delete.{delete_tree}
use frostfire.BTree.Runs.{Run}
use frostfire.BTree.Values.{Calm, Leaves}
use frostfire.BTree.Finding.{search_tree-contents}
use frostfire.BTree.Split.{leaf_split_point}
use frostfire.BTree.Cuts.{Within, leaf_split_point-Within}
use frostfire.Node.{leaf_cell_size_at}
use frostfire.BTree.Idle.{Stays, update_tree-Idle, delete_tree-absent}
use frostfire.BTree.Forest.{forest_laws, forest, planted, leaf_a, both, planted-IsTree}

search_tree-contents_example :
    Run
      (λ v t. (v ≡ both (99 ∷ [])) × Calm (forest_laws forest) planted t)
      (λ t. Calm (forest_laws forest) planted t)
      (search_tree memory_pages 2 4 (99 ∷ []) planted)
search_tree-contents_example =
    search_tree-contents (forest_laws forest) 0 1 2 4 both (99 ∷ []) planted planted-IsTree
      (omega arith) (λ i. refl)

both_99 : both (99 ∷ []) ≡ some (3 ∷ [])
unfolding compare same_bytes
both_99 = refl

both_98 : both (98 ∷ []) ≡ none
unfolding compare same_bytes
both_98 = refl

update_tree-Idle_example :
    Leaves
      (forest_laws forest)
      (λ root. (root ≡ 4) × Stays insert (both (99 ∷ [])) (7 ∷ []))
      planted
      (update_tree memory_pages 3 4 (99 ∷ []) (7 ∷ []) insert planted)
update_tree-Idle_example =
    update_tree-Idle (forest_laws forest) 0 (99 ∷ []) (7 ∷ []) insert 1 3 4 both planted
      planted-IsTree (omega arith) (λ e. cc (both_99, e)) (λ i. refl)

delete_tree-absent_example :
    Leaves
      (forest_laws forest)
      (λ r. r ≡ (4, false))
      planted
      (delete_tree memory_pages 2 4 (98 ∷ []) planted)
delete_tree-absent_example =
    delete_tree-absent (forest_laws forest) 0 (98 ∷ []) 1 2 4 both planted planted-IsTree
      (omega arith) both_98 (λ i. refl)

leaf_a-sizes : (j : ℕ) → j < n_cells leaf_a → leaf_cell_size_at leaf_a j ≡ ok 7
unfolding leaf_key_at leaf_key append_leaf_cell leaf_cell_size free_space header_size ntype n_cells
    first_cell_offset init_node set_n_cells set_first_cell_offset encode_leaf_cell enter_cell enter
    write put_le get_le slice put_bytes stored_value cell_offset leaf_cell_size_at
leaf_a-sizes zero h = refl
leaf_a-sizes (suc j) h = absurd (omega arith)

leaf_a_small : n_cells leaf_a ≡ 1
unfolding append_leaf_cell leaf_cell_size free_space header_size ntype n_cells first_cell_offset
    init_node set_n_cells set_first_cell_offset encode_leaf_cell enter_cell enter write put_le
    get_le slice put_bytes
leaf_a_small = refl

leaf_split_point-Within_example : Within 1 (n_cells leaf_a + 1) (leaf_split_point leaf_a 1 9 false)
leaf_split_point-Within_example =
    leaf_split_point-Within leaf_a (λ j. 7) leaf_a-sizes 1 9 false (omega (arith, leaf_a_small))
      (omega (arith, leaf_a_small)) (omega (arith, leaf_a_small))
