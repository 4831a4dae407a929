-- ===== src/BTree/Siblings.antt =====
-- The parts of delete.go that mend an underfull child: borrowing a cell from a sibling, and merging
-- with one.
use frostfire.Prelude.{
  ℕ, zero, suc, ◌+◌, ◌-◌, ◌/◌, Bool, true, false, List, ltb, leb, ◌==◌, if◌then◌else◌, Option, none,
  some, Result, ok,
}
use frostfire.Prelude as P
use frostfire.Bytes.{Bytes, page_size}
use frostfire.Node.{
  node_leaf, min_cells_per_page, u16, sub16, ntype, n_cells, free_space, cell_size, key, child,
  rightmost_child, copy_cell, copy_cell_at, copy_without_cell, insert_internal_cell_at,
}
use frostfire.BTree.Pages.{Pages}
use frostfire.BTree.Action.{Action, pure, lift, on_error, finally, ◌>>=◌, ◌>>◌}
use frostfire.BTree.Nodes.{
  bytes, id, release, free_page, get_node, read, edit, alloc_node, alloc_leaf, alloc_internal,
  copy_range_to, append_internal_to, set_rightmost_of,
}
use frostfire.BTree.Split.{append_with_key_of, copy_rightmost_to}

unfoldable pub sibling_can_donate : Bytes → Result Bool
sibling_can_donate d =
    if leb (n_cells d) min_cells_per_page
    then ok false
    else (P.◌>>=◌ (cell_size d (sub16 (n_cells d) 1))
        λ size. ok (leb (page_size / 4) (sub16 (sub16 (sub16 page_size (free_space d)) size) 2)))

module _ (p : Pages) where
  open p use {State}

  -- The parent after the two children around separator `sep_idx` became `left` and `right`.
  unfoldable pub rebuild_parent_for_borrow :
      (node sep_idx left : ℕ) → List ℕ → (right : ℕ) → Action State ℕ
  unfolding alloc_node
  rebuild_parent_for_borrow node sep_idx left sep right = do
    n ← alloc_internal p
    d ← bytes p node
    copy_range_to p n node 0 sep_idx
    append_internal_to p n left sep
    if ltb (u16 (sep_idx + 1)) (n_cells d)
        then (do
          append_with_key_of p n right node (u16 (sep_idx + 1))
          copy_range_to p n node (u16 (sep_idx + 2)) (sub16 (sub16 (n_cells d) sep_idx) 2)
          copy_rightmost_to p n node)
        else set_rightmost_of p n right
    pure n

  -- The parent after they became the one page `merged`.
  unfoldable pub rebuild_parent_for_merge : (node sep_idx merged : ℕ) → Action State ℕ
  unfolding alloc_node
  rebuild_parent_for_merge node sep_idx merged = do
    n ← alloc_internal p
    d ← bytes p node
    copy_range_to p n node 0 sep_idx
    if ltb (u16 (sep_idx + 1)) (n_cells d)
        then (do
          append_with_key_of p n merged node (u16 (sep_idx + 1))
          copy_range_to p n node (u16 (sep_idx + 2)) (sub16 (sub16 (n_cells d) sep_idx) 2)
          copy_rightmost_to p n node)
        else set_rightmost_of p n merged
    pure n

  -- The new sibling, and the separator between it and the child.
  unfoldable pub borrow_from_left_leaf : (left child : ℕ) → Action State (ℕ × List ℕ)
  unfolding alloc_node
  borrow_from_left_leaf left child = do
    d ← bytes p left
    let borrow_idx = sub16 (n_cells d) 1
    edit p child (λ e. copy_cell_at 0 d borrow_idx e)
    n ← alloc_leaf p
    e ← bytes p left
    edit p n (λ f. copy_without_cell e borrow_idx f)
    sep ← read p child (λ f. key f 0)
    pure (n, sep)

  unfoldable pub borrow_from_left_internal :
      (left : ℕ) → List ℕ → (child : ℕ) → Action State (ℕ × List ℕ)
  unfolding alloc_node
  borrow_from_left_internal left parent_sep c = do
    d ← bytes p left
    let borrow_idx = sub16 (n_cells d) 1
    pulled_up ← lift (key d borrow_idx)
    new_rightmost ← lift (child d borrow_idx)
    edit p c (λ e. insert_internal_cell_at 0 (rightmost_child d) parent_sep e)
    n ← alloc_internal p
    copy_range_to p n left 0 borrow_idx
    set_rightmost_of p n new_rightmost
    pure (n, pulled_up)

  unfoldable pub borrow_from_right_leaf : (right child : ℕ) → Action State (ℕ × List ℕ)
  unfolding alloc_node
  borrow_from_right_leaf right child = do
    d ← bytes p right
    edit p child (λ e. copy_cell d 0 e)
    n ← alloc_leaf p
    e ← bytes p right
    edit p n (λ f. copy_without_cell e 0 f)
    sep ← read p n (λ f. key f 0)
    pure (n, sep)

  unfoldable pub borrow_from_right_internal :
      (right : ℕ) → List ℕ → (child : ℕ) → Action State (ℕ × List ℕ)
  unfolding alloc_node
  borrow_from_right_internal right parent_sep c = do
    d ← bytes p right
    pulled_up ← lift (key d 0)
    e ← bytes p c
    new_rightmost ← lift (child d 0)
    append_internal_to p c (rightmost_child e) parent_sep
    set_rightmost_of p c new_rightmost
    n ← alloc_internal p
    f ← bytes p right
    edit p n (λ g. copy_without_cell f 0 g)
    pure (n, pulled_up)

  unfoldable pub borrow_from_left : (node child_idx left child : ℕ) → Action State (ℕ × List ℕ)
  unfolding borrow_from_left_leaf borrow_from_left_internal
  borrow_from_left node child_idx left c = do
    d ← bytes p c
    if ntype d == node_leaf
        then borrow_from_left_leaf left c
        else (read p node (λ e. key e (sub16 child_idx 1)) >>= λ sep.
            borrow_from_left_internal left sep c)

  unfoldable pub borrow_from_right : (node child_idx right child : ℕ) → Action State (ℕ × List ℕ)
  unfolding borrow_from_right_leaf borrow_from_right_internal
  borrow_from_right node child_idx right c = do
    d ← bytes p c
    if ntype d == node_leaf
        then borrow_from_right_leaf right c
        else (read p node (λ e. key e child_idx) >>= λ sep. borrow_from_right_internal right sep c)

  -- borrowForUnderfullChild on the left side; `none` where it does not lend.
  unfoldable pub try_left : (node child_idx c : ℕ) → Action State (Option ℕ)
  unfolding borrow_from_left rebuild_parent_for_borrow sibling_can_donate
  try_left node child_idx c = do
    left_id ← read p node (λ d. child d (sub16 child_idx 1))
    left ← on_error (get_node p left_id) (release p c)
    donates ← read p left sibling_can_donate
    if donates
        then (do
          (n, sep) ←
              on_error (on_error (borrow_from_left node child_idx left c) (release p left))
                (release p c)
          release p left
          free_page p left_id
          l ← id p n
          r ← id p c
          parent ←
              on_error (rebuild_parent_for_borrow node (sub16 child_idx 1) l sep r)
                (release p n >> release p c)
          release p n
          release p c
          pure (some parent))
        else (release p left >> pure none)

  unfoldable pub try_right : (node child_idx c : ℕ) → Action State (Option ℕ)
  unfolding borrow_from_right rebuild_parent_for_borrow sibling_can_donate
  try_right node child_idx c = do
    right_id ← read p node (λ d. child d (u16 (child_idx + 1)))
    right ← on_error (get_node p right_id) (release p c)
    donates ← read p right sibling_can_donate
    if donates
        then (do
          (n, sep) ←
              on_error (on_error (borrow_from_right node child_idx right c) (release p right))
                (release p c)
          release p right
          free_page p right_id
          l ← id p c
          r ← id p n
          parent ←
              on_error (rebuild_parent_for_borrow node child_idx l sep r)
                (release p n >> release p c)
          release p n
          release p c
          pure (some parent))
        else (release p right >> pure none)

  unfoldable pub borrow_for_underfull_child : (node child_idx c : ℕ) → Action State (Option ℕ)
  unfolding try_left try_right
  borrow_for_underfull_child node child_idx c = do
    left ← (if ltb 0 child_idx then try_left node child_idx c else pure none)
    d ← bytes p node
    elim left [
      | some parent ↦ pure (some parent)
      | none ↦ if ltb child_idx (n_cells d) then try_right node child_idx c else pure none
    ]

  -- mergeWithLeft and mergeWithRight: the cells of `left`, the separator between two internal nodes,
  -- and the cells of `right`. The new node is of the type of `like`, the underfull child.
  unfoldable pub merge : (like left right : ℕ) → List ℕ → Action State ℕ
  unfolding alloc_node
  merge like left right parent_sep = do
    d ← bytes p like
    let is_leaf = ntype d == node_leaf
    n ← (if is_leaf then alloc_leaf p else alloc_internal p)
    l ← bytes p left
    copy_range_to p n left 0 (n_cells l)
    if is_leaf then pure tt else append_internal_to p n (rightmost_child l) parent_sep
    r ← bytes p right
    copy_range_to p n right 0 (n_cells r)
    if is_leaf then pure tt else copy_rightmost_to p n right
    pure n

  -- What follows a merge of the child with a sibling, page `sibling_id`, at separator `sep_idx`.
  unfoldable pub replace_merged :
      (node sep_idx sibling_id sibling c : ℕ) → Action State ℕ → Action State ℕ
  unfolding rebuild_parent_for_merge
  replace_merged node sep_idx sibling_id sibling c merging = do
    merged ← on_error (on_error merging (release p sibling)) (release p c)
    release p sibling
    free_page p sibling_id
    child_id ← id p c
    release p c
    free_page p child_id
    i ← id p merged
    finally (rebuild_parent_for_merge node sep_idx i) (release p merged)

  unfoldable pub merge_with_left : (node child_idx c : ℕ) → Action State ℕ
  unfolding merge replace_merged
  merge_with_left node child_idx c = do
    left_id ← read p node (λ d. child d (sub16 child_idx 1))
    left ← on_error (get_node p left_id) (release p c)
    sep ← read p node (λ d. key d (sub16 child_idx 1))
    replace_merged node (sub16 child_idx 1) left_id left c (merge c left c sep)

  unfoldable pub merge_with_right : (node child_idx c : ℕ) → Action State ℕ
  unfolding merge replace_merged
  merge_with_right node child_idx c = do
    right_id ← read p node (λ d. child d (u16 (child_idx + 1)))
    right ← on_error (get_node p right_id) (release p c)
    sep ← read p node (λ d. key d child_idx)
    replace_merged node child_idx right_id right c (merge c c right sep)

  unfoldable pub merge_underfull_child : (node child_idx c : ℕ) → Action State ℕ
  unfolding merge_with_left merge_with_right
  merge_underfull_child node child_idx c = do
    d ← bytes p node
    if ltb 0 child_idx
        then merge_with_left node child_idx c
        else (if ltb child_idx (n_cells d) then merge_with_right node child_idx c else pure c)
