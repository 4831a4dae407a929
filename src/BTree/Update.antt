-- ===== src/BTree/Update.antt =====
-- update.go: Update and what it does at each level of the tree. Nodes on the path are copied.
use frostfire.Prelude.{
  ℕ, zero, suc, ◌+◌, ◌-◌, Bool, true, false, List, ltb, ◌==◌, if◌then◌else◌, length, key_exists,
  key_not_found, key_too_big,
}
use frostfire.Node.{
  node_leaf, max_key_size, u16, sub16, ntype, n_cells, free_space, leaf_cell_size,
  internal_cell_size, cell_size, child, set_child, search_leaf, search_internal,
  leaf_cell_overflow_id,
}
use frostfire.Node.Key.{less, equal, greater, compare}
use frostfire.BTree.Pages.{Pages}
use frostfire.BTree.Action.{
  Action, pure, raise, lift, lift_loop, out_of_fuel, on_error, finally, ◌>>=◌, ◌>>◌,
}
use frostfire.BTree.Nodes.{
  bytes, id, release, free_page, get_node, write_bytes, read, edit, alloc_node, alloc_leaf,
  alloc_internal, copy_range_to, append_internal_to, append_leaf_to, set_rightmost_of,
}
use frostfire.BTree.Overflow.{free_overflow_pages, leaf_cell_overflow}
use frostfire.BTree.Lookup.{leaf_value}
use frostfire.BTree.Split.{
  Change, kept, replaced, split, split_leaf, split_internal, append_with_key_of, copy_rightmost_to,
}

pub data Mode : Type 0 where
  upsert insert update : Mode

-- `bytes.Equal`
unfoldable pub same_bytes : List ℕ → List ℕ → Bool
same_bytes a b = elim (compare a b) [ equal ↦ true | less ↦ false | greater ↦ false ]

module _ (p : Pages) where
  open p use {State}

  unfoldable pub append_leaf_value : ℕ → List ℕ → List ℕ → Action State (Unit {0})
  unfolding leaf_cell_overflow
  append_leaf_value n k v = do
    overflow_id ← leaf_cell_overflow p k v
    append_leaf_to p n k v overflow_id

  -- A new leaf: the cells before `idx`, the new cell, and the cells from `rest` on.
  unfoldable pub rebuild_leaf : (node idx rest : ℕ) → List ℕ → List ℕ → Action State Change
  unfolding alloc_node append_leaf_value
  rebuild_leaf node idx rest k v = do
    n ← alloc_leaf p
    copy_range_to p n node 0 idx
    on_error (append_leaf_value n k v) (release p n)
    d ← bytes p node
    copy_range_to p n node rest (sub16 (n_cells d) rest)
    pure (replaced n)

  -- replaceLeafValue once the value is known to change.
  unfoldable pub rewrite_leaf_value : ℕ → (node idx : ℕ) → List ℕ → List ℕ → Action State Change
  unfolding rebuild_leaf
  rewrite_leaf_value fuel node idx k v = do
    old ← read p node (λ d. leaf_cell_overflow_id d idx)
    if old == 0 then pure tt else free_overflow_pages p fuel old
    old_size ← read p node (λ d. cell_size d idx)
    d ← bytes p node
    let needed = if ltb old_size (leaf_cell_size k v) then leaf_cell_size k v - old_size else 0
    if ltb (free_space d) needed
        then split_leaf p node idx k v true
        else rebuild_leaf node idx (u16 (idx + 1)) k v

  unfoldable pub replace_leaf_value :
      ℕ → (node idx : ℕ) → List ℕ → List ℕ → Mode → Action State Change
  unfolding rewrite_leaf_value leaf_value
  replace_leaf_value fuel node idx k v insert = raise key_exists
  replace_leaf_value fuel node idx k v upsert = do
    existing ← leaf_value p fuel node idx
    if same_bytes existing v then pure kept else rewrite_leaf_value fuel node idx k v
  replace_leaf_value fuel node idx k v update = do
    existing ← leaf_value p fuel node idx
    if same_bytes existing v then pure kept else rewrite_leaf_value fuel node idx k v

  -- addLeafValue, where the mode allows it.
  unfoldable pub insert_leaf_value : (node idx : ℕ) → List ℕ → List ℕ → Action State Change
  unfolding rebuild_leaf
  insert_leaf_value node idx k v = do
    d ← bytes p node
    if ltb (free_space d) (u16 (leaf_cell_size k v + 2))
        then split_leaf p node idx k v false
        else rebuild_leaf node idx idx k v

  unfoldable pub add_leaf_value : (node idx : ℕ) → List ℕ → List ℕ → Mode → Action State Change
  unfolding insert_leaf_value
  add_leaf_value node idx k v update = raise key_not_found
  add_leaf_value node idx k v upsert = insert_leaf_value node idx k v
  add_leaf_value node idx k v insert = insert_leaf_value node idx k v

  abbrev pub place_value : ℕ → ℕ → List ℕ → List ℕ → Mode → ℕ × Bool → Action State Change
  unfolding replace_leaf_value add_leaf_value
  place_value fuel node k v mode (idx, true) = replace_leaf_value fuel node idx k v mode
  place_value fuel node k v mode (idx, false) = add_leaf_value node idx k v mode

  unfoldable pub update_leaf : ℕ → ℕ → List ℕ → List ℕ → Mode → Action State Change
  unfolding place_value replace_leaf_value add_leaf_value
  update_leaf fuel node k v mode = do
    d ← bytes p node
    at ← lift_loop (search_leaf d k)
    place_value fuel node k v mode at

  -- replaceInternalChild and replaceChildAfterDelete
  unfoldable pub replace_internal_child : (node child_idx new_child : ℕ) → Action State ℕ
  unfolding alloc_node
  replace_internal_child node child_idx new_child = do
    n ← on_error (alloc_internal p) (release p new_child)
    d ← bytes p node
    write_bytes p n d
    i ← id p new_child
    edit p n (λ e. set_child child_idx i e)
    release p new_child
    pure n

  unfoldable pub apply_child_split :
      (node child_idx new_child : ℕ) → List ℕ → (extra_child : ℕ) → Action State ℕ
  unfolding alloc_node
  apply_child_split node child_idx new_child push_up extra_child = do
    n ← alloc_internal p
    d ← bytes p node
    if ltb child_idx (n_cells d)
        then (do
          copy_range_to p n node 0 child_idx
          append_internal_to p n new_child push_up
          append_with_key_of p n extra_child node child_idx
          copy_range_to p n node (u16 (child_idx + 1)) (sub16 (sub16 (n_cells d) child_idx) 1)
          copy_rightmost_to p n node)
        else (do
          copy_range_to p n node 0 (n_cells d)
          append_internal_to p n new_child push_up
          set_rightmost_of p n extra_child)
    pure n

  unfoldable pub update_after_child_split :
      (node child_idx new_child : ℕ) → List ℕ → (extra_child : ℕ) → Action State Change
  unfolding apply_child_split split_internal
  update_after_child_split node child_idx new_child push_up extra_child = do
    d ← bytes p node
    left ← id p new_child
    right ← id p extra_child
    finally
        (if ltb (free_space d) (u16 (internal_cell_size push_up + 2))
          then split_internal p node child_idx left push_up right
          else (apply_child_split node child_idx left push_up right >>= λ n. pure (replaced n)))
        (release p new_child >> release p extra_child)

  -- What an internal node becomes when its child became `c`.
  unfoldable pub pass_up : (node child_idx child_id : ℕ) → Change → Action State Change
  unfolding replace_internal_child update_after_child_split
  pass_up node child_idx child_id kept = pure kept
  pass_up node child_idx child_id (replaced n) = do
    free_page p child_id
    m ← replace_internal_child node child_idx n
    pure (replaced m)
  pass_up node child_idx child_id (split n1 n2 sep) = do
    free_page p child_id
    update_after_child_split node child_idx n1 sep n2

  -- updateInternal, with updateNode for the child.
  unfoldable pub update_internal : (ℕ → Action State Change) → ℕ → List ℕ → Action State Change
  unfolding pass_up
  update_internal descend node k = do
    d ← bytes p node
    child_idx ← lift_loop (search_internal d k)
    child_id ← lift (child d child_idx)
    c ← get_node p child_id
    change ← finally (descend c) (release p c)
    pass_up node child_idx child_id change

  unfoldable pub update_node : ℕ → ℕ → List ℕ → List ℕ → Mode → Action State Change
  unfolding update_leaf update_internal
  update_node zero node k v mode = out_of_fuel
  update_node (suc fuel) node k v mode = do
    d ← bytes p node
    let inner : Action State Change = update_internal (λ c. update_node fuel c k v mode) node k
    if ntype d == node_leaf then update_leaf fuel node k v mode else inner

  -- The root is the only cell of the tree.
  unfoldable pub first_leaf : List ℕ → List ℕ → Action State ℕ
  unfolding alloc_node append_leaf_value
  first_leaf k v = do
    n ← alloc_leaf p
    on_error (append_leaf_value n k v) (release p n >> (id p n >>= free_page p))
    release p n
    id p n

  unfoldable pub new_root : Change → (root : ℕ) → Action State ℕ
  unfolding alloc_node
  new_root kept root = pure root
  new_root (replaced n) root = do free_page p root; i ← id p n; release p n; pure i
  new_root (split n1 n2 sep) root = do
    free_page p root
    n ← on_error (alloc_internal p) (release p n1 >> release p n2)
    left ← id p n1
    append_internal_to p n left sep
    right ← id p n2
    set_rightmost_of p n right
    release p n1
    release p n2
    release p n
    id p n

  abbrev pub insert_first : List ℕ → List ℕ → Mode → Action State ℕ
  unfolding first_leaf
  insert_first k v update = raise key_not_found
  insert_first k v upsert = first_leaf k v
  insert_first k v insert = first_leaf k v

  -- Update. The result is the tree's root afterwards; after an error the root stays.
  unfoldable pub update_tree : ℕ → (root : ℕ) → List ℕ → List ℕ → Mode → Action State ℕ
  unfolding insert_first first_leaf update_node new_root
  update_tree fuel root k v mode =
      let descend : Action State ℕ = (do
        n ← get_node p root
        change ← finally (update_node fuel n k v mode) (release p n)
        new_root change root) in
      if ltb max_key_size (length k)
      then raise key_too_big
      else (if root == 0 then insert_first k v mode else descend)
