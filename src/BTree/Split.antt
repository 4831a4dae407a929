-- ===== src/BTree/Split.antt =====
-- The splits of update.go: where a node that is too full is cut, and the two nodes it becomes.
use frostfire.Prelude.{
  ℕ, zero, suc, ◌+◌, ◌-◌, ◌*◌, ◌/◌, ◌%◌, Bool, true, false, ◌&&◌, not, List, ltb, leb, ◌==◌,
  if◌then◌else◌, Result, ok,
}
use frostfire.Prelude as P
use frostfire.Bytes.{Bytes}
use frostfire.Node.{
  u16, sub16, n_cells, total_cells_size, key, child, rightmost_child, leaf_cell_size,
  internal_cell_size, leaf_cell_size_at, internal_cell_size_at,
}
use frostfire.BTree.Pages.{Pages}
use frostfire.BTree.Action.{Action, pure, on_error, ◌>>=◌, ◌>>◌}
use frostfire.BTree.Nodes.{
  bytes, id, release, free_page, read, alloc_node, alloc_leaf, alloc_internal, copy_range_to,
  append_internal_to, append_leaf_to, set_rightmost_of,
}
use frostfire.BTree.Overflow.{leaf_cell_overflow}

-- The size that cell `idx` has once the new cell stands at `insert_idx`.
unfoldable pub leaf_size_after : Bytes → (insert_idx new_size : ℕ) → Bool → ℕ → Result ℕ
leaf_size_after d insert_idx new_size replacing idx =
    if idx == insert_idx
    then ok new_size
    else leaf_cell_size_at d (if not replacing && ltb insert_idx idx then sub16 idx 1 else idx)

-- `range totalCells` in leafSplitIndex: the cells left, the next index and the sum so far.
unfoldable pub leaf_split_loop :
    Bytes → (insert_idx new_size target : ℕ) → Bool → (count idx running : ℕ) → Result ℕ
unfolding leaf_size_after
leaf_split_loop d insert_idx new_size target replacing zero idx running = ok 1
leaf_split_loop d insert_idx new_size target replacing (suc count) idx running =
    P.◌>>=◌ (leaf_size_after d insert_idx new_size replacing idx) λ size.
      let running' = u16 (running + u16 (size + 2)) in
      let rest =
        leaf_split_loop d insert_idx new_size target replacing count (u16 (idx + 1)) running' in
      if ltb target running' then ok (u16 (idx + 1)) else rest

unfoldable pub clamp_split : ℕ → ℕ → ℕ
clamp_split total split_idx = if leb total split_idx then sub16 total 1 else split_idx

unfoldable pub leaf_split_index : Bytes → (insert_idx total new_size target : ℕ) → Bool → Result ℕ
unfolding leaf_split_loop clamp_split
leaf_split_index d insert_idx total new_size target replacing =
    P.◌>>=◌ (leaf_split_loop d insert_idx new_size target replacing total 0 0)
      λ i. ok (clamp_split total i)

-- The same for an internal node whose child `child_idx` was split.
unfoldable pub internal_size_after : Bytes → (child_idx n new_size : ℕ) → ℕ → Result ℕ
internal_size_after d child_idx n new_size i =
    if ltb i child_idx
    then internal_cell_size_at d i
    else (if i == child_idx
        then ok new_size
        else (if i == u16 (child_idx + 1) && ltb child_idx n
            then internal_cell_size_at d child_idx
            else internal_cell_size_at d (sub16 i 1)))

unfoldable pub internal_split_loop :
    Bytes → (child_idx n new_size target count idx running : ℕ) → Result ℕ
unfolding internal_size_after
internal_split_loop d child_idx n new_size target zero idx running = ok 1
internal_split_loop d child_idx n new_size target (suc count) idx running =
    P.◌>>=◌ (internal_size_after d child_idx n new_size idx) λ size.
      let running' = u16 (running + u16 (size + 2)) in
      let rest = internal_split_loop d child_idx n new_size target count (u16 (idx + 1)) running' in
      if ltb target running' then ok idx else rest

unfoldable pub internal_split_index : Bytes → (child_idx n total new_size target : ℕ) → Result ℕ
unfolding internal_split_loop clamp_split
internal_split_index d child_idx n total new_size target =
    P.◌>>=◌ (internal_split_loop d child_idx n new_size target total 0 0)
      λ i. ok (clamp_split total i)

-- What became of a node: nothing, a new node, or two with the separator between them.
pub data Change : Type 0 where
  kept : Change
  replaced : ℕ → Change
  split : (left right : ℕ) → List ℕ → Change

-- The sizes that splitLeaf computes: the number of cells after the change, and half of the space
-- that they take.
unfoldable pub leaf_split_point : Bytes → (insert_idx new_size : ℕ) → Bool → Result ℕ
unfolding leaf_split_index
leaf_split_point d insert_idx new_size true = P.◌>>=◌ (leaf_cell_size_at d insert_idx) λ old_size.
    let total_size =
      u16 (u16 (total_cells_size d + sub16 new_size old_size) + u16 (n_cells d * 2)) in
    leaf_split_index d insert_idx (n_cells d) new_size (total_size / 2) true
leaf_split_point d insert_idx new_size false =
    let total_size = u16 (u16 (total_cells_size d + u16 (2 + new_size)) + u16 (n_cells d * 2)) in
    leaf_split_index d insert_idx (u16 (n_cells d + 1)) new_size (total_size / 2) false

unfoldable pub internal_split_point : Bytes → (child_idx new_size : ℕ) → Result ℕ
unfolding internal_split_index
internal_split_point d child_idx new_size =
    let total_size = u16 (u16 (u16 (total_cells_size d + new_size) + u16 (n_cells d * 2)) + 2) in
    internal_split_index d child_idx (n_cells d) (u16 (n_cells d + 1)) new_size (total_size / 2)

module _ (p : Pages) where
  open p use {State}

  abbrev alloc_second : Action State ℕ → ℕ → Action State ℕ
  alloc_second alloc n1 = on_error alloc (id p n1 >>= λ i. free_page p i >>= λ done. release p n1)

  -- The cells of `node` with the new cell at `insert_idx`, spread over the two nodes.
  unfoldable pub fill_leaves :
      (n1 n2 node insert_idx split_idx overflow_id : ℕ)
      → List ℕ
      → List ℕ
      → Bool
      → Action State (Unit {0})
  fill_leaves n1 n2 node insert_idx split_idx overflow_id k v replacing = do
    d ← bytes p node
    let n = n_cells d
    let after = u16 (insert_idx + 1)
    let before = sub16 split_idx 1
    if ltb insert_idx split_idx
        then (do
          copy_range_to p n1 node 0 insert_idx
          append_leaf_to p n1 k v overflow_id
          if replacing
              then (copy_range_to p n1 node after (sub16 (sub16 split_idx insert_idx) 1)
                  >> copy_range_to p n2 node split_idx (sub16 n split_idx))
              else (copy_range_to p n1 node insert_idx (sub16 (sub16 split_idx insert_idx) 1)
                  >> copy_range_to p n2 node before (sub16 n before)))
        else (do
          copy_range_to p n1 node 0 split_idx
          copy_range_to p n2 node split_idx (sub16 insert_idx split_idx)
          append_leaf_to p n2 k v overflow_id
          if replacing
              then copy_range_to p n2 node after (sub16 (sub16 n insert_idx) 1)
              else copy_range_to p n2 node insert_idx (sub16 n insert_idx))

  unfoldable pub split_leaf : (node insert_idx : ℕ) → List ℕ → List ℕ → Bool → Action State Change
  unfolding alloc_node leaf_cell_overflow fill_leaves leaf_split_point
  split_leaf node insert_idx k v replacing = do
    split_idx ← read p node (λ d. leaf_split_point d insert_idx (leaf_cell_size k v) replacing)
    overflow_id ← leaf_cell_overflow p k v
    n1 ← alloc_leaf p
    n2 ← alloc_second (alloc_leaf p) n1
    fill_leaves n1 n2 node insert_idx split_idx overflow_id k v replacing
    sep ← read p n2 (λ d. key d 0)
    pure (split n1 n2 sep)

  -- `dst.setRightmostChild(node.rightmostChild())`
  abbrev pub copy_rightmost_to : ℕ → ℕ → Action State (Unit {0})
  copy_rightmost_to dst node = bytes p node >>= λ d. set_rightmost_of p dst (rightmost_child d)

  abbrev pub set_rightmost_from : ℕ → ℕ → ℕ → Action State (Unit {0})
  set_rightmost_from dst node idx = read p node (λ d. child d idx) >>= set_rightmost_of p dst

  abbrev pub append_with_key_of : ℕ → ℕ → ℕ → ℕ → Action State (Unit {0})
  append_with_key_of dst c node idx = read p node (λ d. key d idx) >>= append_internal_to p dst c

  -- The cases of splitInternal. The separator that goes up is the result.
  unfoldable pub fill_internals :
      (n1 n2 node n child_idx split_idx new_child extra_child : ℕ) → List ℕ → Action State (List ℕ)
  fill_internals n1 n2 node n child_idx split_idx new_child extra_child push_up =
      let after = u16 (child_idx + 1) in
      let rest = sub16 (sub16 n child_idx) 1 in
      if split_idx == after
      then (do
        copy_range_to p n1 node 0 child_idx
        append_internal_to p n1 new_child push_up
        set_rightmost_of p n1 extra_child
        sep ← read p node (λ d. key d child_idx)
        copy_range_to p n2 node after rest
        copy_rightmost_to n2 node
        pure sep)
      else (if ltb child_idx split_idx
          then (do
            copy_range_to p n1 node 0 child_idx
            append_internal_to p n1 new_child push_up
            append_with_key_of n1 extra_child node child_idx
            copy_range_to p n1 node after (sub16 (sub16 split_idx child_idx) 2)
            set_rightmost_from n1 node (sub16 split_idx 1)
            sep ← read p node (λ d. key d (sub16 split_idx 1))
            copy_range_to p n2 node split_idx (sub16 n split_idx)
            copy_rightmost_to n2 node
            pure sep)
          else (if child_idx == split_idx
              then (do
                copy_range_to p n1 node 0 child_idx
                set_rightmost_of p n1 new_child
                if ltb child_idx n
                    then (append_with_key_of n2 extra_child node child_idx
                        >> copy_range_to p n2 node after rest
                        >> copy_rightmost_to n2 node)
                    else set_rightmost_of p n2 extra_child
                pure push_up)
              else (do
                copy_range_to p n1 node 0 split_idx
                set_rightmost_from n1 node split_idx
                sep ← read p node (λ d. key d split_idx)
                copy_range_to p n2 node (u16 (split_idx + 1)) (sub16 (sub16 child_idx split_idx) 1)
                append_internal_to p n2 new_child push_up
                if ltb child_idx n
                    then (append_with_key_of n2 extra_child node child_idx
                        >> copy_range_to p n2 node after rest
                        >> copy_rightmost_to n2 node)
                    else set_rightmost_of p n2 extra_child
                pure sep)))

  unfoldable pub split_internal :
      (node child_idx new_child : ℕ) → List ℕ → (extra_child : ℕ) → Action State Change
  unfolding alloc_node fill_internals internal_split_point
  split_internal node child_idx new_child push_up extra_child = do
    split_idx ← read p node (λ d. internal_split_point d child_idx (internal_cell_size push_up))
    n1 ← alloc_internal p
    n2 ← alloc_second (alloc_internal p) n1
    d ← bytes p node
    sep ← fill_internals n1 n2 node (n_cells d) child_idx split_idx new_child extra_child push_up
    pure (split n1 n2 sep)
