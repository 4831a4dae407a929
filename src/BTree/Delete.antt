-- ===== src/BTree/Delete.antt =====
-- delete.go: Delete and what it does at each level of the tree.
use frostfire.Prelude.{
  ℕ, zero, suc, Bool, true, false, List, ◌==◌, if◌then◌else◌, ◌&&◌, Option, none, some,
}
use frostfire.Node.{
  node_leaf, node_internal, ntype, n_cells, underfull, child, rightmost_child, search_leaf,
  search_internal, leaf_cell_overflow_id, copy_without_cell,
}
use frostfire.BTree.Pages.{Pages}
use frostfire.BTree.Action.{Action, pure, lift, lift_loop, out_of_fuel, finally, ◌>>=◌, ◌>>◌}
use frostfire.BTree.Nodes.{
  bytes, id, release, free_page, get_node, read, edit, alloc_node, alloc_leaf,
}
use frostfire.BTree.Overflow.{free_overflow_pages}
use frostfire.BTree.Update.{replace_internal_child}
use frostfire.BTree.Siblings.{borrow_for_underfull_child, merge_underfull_child}

module _ (p : Pages) where
  open p use {State}

  -- The leaf without its cell `idx`.
  unfoldable pub remove_from_leaf : ℕ → (node idx : ℕ) → Action State ℕ
  unfolding alloc_node
  remove_from_leaf fuel node idx = do
    old ← read p node (λ d. leaf_cell_overflow_id d idx)
    if old == 0 then pure tt else free_overflow_pages p fuel old
    n ← alloc_leaf p
    d ← bytes p node
    edit p n (λ e. copy_without_cell d idx e)
    pure n

  abbrev pub remove_at : ℕ → ℕ → ℕ × Bool → Action State (Option ℕ)
  unfolding remove_from_leaf
  remove_at fuel node (idx, true) = remove_from_leaf fuel node idx >>= λ n. pure (some n)
  remove_at fuel node (idx, false) = pure none

  -- `none` where the key is not there.
  unfoldable pub delete_from_leaf : ℕ → ℕ → List ℕ → Action State (Option ℕ)
  unfolding remove_at remove_from_leaf
  delete_from_leaf fuel node k = do
    d ← bytes p node
    at ← lift_loop (search_leaf d k)
    remove_at fuel node at

  unfoldable pub mend_child : (node child_idx c : ℕ) → Action State ℕ
  unfolding replace_internal_child borrow_for_underfull_child merge_underfull_child
  mend_child node child_idx c = do
    d ← bytes p c
    let mend : Action State ℕ = (do
      parent ← borrow_for_underfull_child p node child_idx c
      elim parent [ some m ↦ pure m | none ↦ merge_underfull_child p node child_idx c ])
    if underfull d then mend else replace_internal_child p node child_idx c

  abbrev pub after_delete : (node child_idx child_id : ℕ) → Option ℕ → Action State (Option ℕ)
  unfolding mend_child
  after_delete node child_idx child_id none = pure none
  after_delete node child_idx child_id (some c) = do
    free_page p child_id
    m ← mend_child node child_idx c
    pure (some m)

  -- deleteFromInternal, with `delete` for the child.
  unfoldable pub delete_from_internal :
      (ℕ → Action State (Option ℕ)) → ℕ → List ℕ → Action State (Option ℕ)
  unfolding after_delete mend_child
  delete_from_internal descend node k = do
    d ← bytes p node
    child_idx ← lift_loop (search_internal d k)
    child_id ← lift (child d child_idx)
    c ← get_node p child_id
    new_child ← finally (descend c) (release p c)
    after_delete node child_idx child_id new_child

  unfoldable pub delete_node : ℕ → ℕ → List ℕ → Action State (Option ℕ)
  unfolding delete_from_leaf delete_from_internal
  delete_node zero node k = out_of_fuel
  delete_node (suc fuel) node k = do
    d ← bytes p node
    let inner : Action State (Option ℕ) = delete_from_internal (λ c. delete_node fuel c k) node k
    if ntype d == node_leaf then delete_from_leaf fuel node k else inner

  -- The new root of a tree that lost a key, and the root's page is freed.
  unfoldable pub shrink_root : (root n : ℕ) → Action State ℕ
  shrink_root root n = do
    free_page p root
    d ← bytes p n
    i ← id p n
    release p n
    if ntype d == node_leaf && n_cells d == 0
        then (free_page p i >> pure 0)
        else (if ntype d == node_internal && n_cells d == 0
            then (free_page p i >> pure (rightmost_child d))
            else pure i)

  abbrev pub finish_delete : ℕ → Option ℕ → Action State (ℕ × Bool)
  unfolding shrink_root
  finish_delete root none = pure (root, false)
  finish_delete root (some n) = shrink_root root n >>= λ i. pure (i, true)

  -- Delete: the tree's root afterwards, and whether the key was there.
  unfoldable pub delete_tree : ℕ → (root : ℕ) → List ℕ → Action State (ℕ × Bool)
  unfolding delete_node finish_delete shrink_root
  delete_tree fuel root k =
      let descend : Action State (ℕ × Bool) = (do
        n ← get_node p root
        found ← finally (delete_node fuel n k) (release p n)
        finish_delete root found) in
      if root == 0 then pure (0, false) else descend
