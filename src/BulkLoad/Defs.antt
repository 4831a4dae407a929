-- ===== src/BulkLoad/Defs.antt =====
-- The bulk loader. Its methods change it also where they fail, so each returns the loader with the
-- outcome. The page size times the fill factor, a computation on floats, is the argument
-- `target_used`.
use frostfire.Prelude.{
  ℕ, ◌+◌, Bool, true, false, List, [], ◌∷◌, ltb, ◌==◌, if◌then◌else◌, length, Option, none, some,
  Result, ok, err, panic, Error, key_too_big, btree_not_empty, bulk_loader_finished,
  bulk_loader_key_order,
}
use frostfire.Bytes.{Bytes, page_size}
use frostfire.Node.{
  max_key_size, u16, sub16, n_cells, free_space, rightmost_child, leaf_cell_size,
  internal_cell_size,
}
use frostfire.Node.Key.{less, equal, greater, compare}
use frostfire.BTree.Pages.{Pages}
use frostfire.BTree.Action.{Action, pure, lift, caught, ◌>>=◌, ◌>>◌}
use frostfire.BTree.Nodes.{
  bytes, id, release, free_page, alloc_node, alloc_leaf, alloc_internal, append_internal_to,
  append_leaf_to, set_rightmost_of,
}
use frostfire.BTree.Overflow.{leaf_cell_overflow}
use frostfire.BTree.Lookup.{for_each}

pub record BulkLoader : Type 0 where
  -- The root of the tree that is loaded.
  pub root : ℕ
  pub spine : List ℕ
  pub target_used : ℕ
  pub last_key : Option (List ℕ)
  pub finished : Bool

unfoldable pub begin_bulk_load : (root target_used : ℕ) → Result BulkLoader
begin_bulk_load root target_used =
    if root == 0
    then ok (record {
      root = root;
      spine = [];
      target_used = target_used;
      last_key = none;
      finished = false;
    })
    else err btree_not_empty

-- shouldRollLeaf and shouldRollInternal
unfoldable pub should_roll : (target_used : ℕ) → Bytes → (cell_size : ℕ) → Bool
should_roll target_used d cell_size =
    if n_cells d == 0
    then false
    else (if ltb (free_space d) (u16 (cell_size + 2))
        then true
        else ltb target_used (u16 (u16 (sub16 page_size (free_space d) + cell_size) + 2)))

-- `bytes.Compare(key, l.lastKey) <= 0`
unfoldable pub in_order : Option (List ℕ) → List ℕ → Bool
in_order none k = true
in_order (some last) k = elim (compare k last) [ greater ↦ true | less ↦ false | equal ↦ false ]

module _ (p : Pages) where
  open p use {State}

  -- promote, on the spine from its level up; the error if there was one.
  unfoldable pub promote :
      (target_used : ℕ)
      → List ℕ
      → (old_child : ℕ) → List ℕ
      → (new_child : ℕ) → Action State (List ℕ × Option Error)
  unfolding alloc_node should_roll
  promote target_used [] old_child sep new_child = do
    made ← caught (alloc_internal p)
    elim made [
      | err e ↦ pure ([], some e)
      | panic ↦ lift panic
      | ok n ↦
          append_internal_to p n old_child sep
          >> set_rightmost_of p n new_child
          >> pure (n ∷ [], none)
    ]
  promote target_used (cur ∷ above) old_child sep new_child = do
    d ← bytes p cur
    let roll : Action State (List ℕ × Option Error) = (do
      cur_id ← id p cur
      release p cur
      made ← caught (alloc_internal p)
      elim made [
        | err e ↦ pure (cur ∷ above, some e)
        | panic ↦ lift panic
        | ok n ↦ set_rightmost_of p n new_child >> id p n >>= λ new_id.
            promote target_used above cur_id sep new_id >>= λ (above', e). pure (n ∷ above', e)
      ])
    let stay : Action State (List ℕ × Option Error) =
        append_internal_to p cur old_child sep
        >> set_rightmost_of p cur new_child
        >> pure (cur ∷ above, none)
    if rightmost_child d == old_child
        then (if should_roll target_used d (internal_cell_size sep) then roll else stay)
        else lift panic

  abbrev Outcome : Type 0
  Outcome = BulkLoader × Option Error

  -- The end of Append: the cell goes to the leaf `n`.
  unfoldable pub append_to_leaf : BulkLoader → ℕ → List ℕ → List ℕ → Action State Outcome
  unfolding leaf_cell_overflow
  append_to_leaf l n k v = do
    stored ← caught (leaf_cell_overflow p k v)
    elim stored [
      | err e ↦ pure (l, some e)
      | panic ↦ lift panic
      | ok overflow_id ↦
          append_leaf_to p n k v overflow_id >> pure (record l { last_key = some k }, none)
    ]

  abbrev promoted : BulkLoader → ℕ → List ℕ → List ℕ → List ℕ × Option Error → Action State Outcome
  unfolding append_to_leaf
  promoted l n k v (above, some e) = pure (record l { spine = n ∷ above }, some e)
  promoted l n k v (above, none) = append_to_leaf (record l { spine = n ∷ above }) n k v

  -- A new leaf `n` after the leaf `leaf`.
  unfoldable pub roll_leaf :
      BulkLoader → (leaf : ℕ) → List ℕ → List ℕ → List ℕ → Action State Outcome
  unfolding alloc_node promote promoted append_to_leaf
  roll_leaf l leaf above k v = do
    made ← caught (alloc_leaf p)
    elim made [
      | err e ↦ pure (l, some e)
      | panic ↦ lift panic
      | ok n ↦ id p leaf >>= λ old_id. release p leaf >> id p n >>= λ new_id.
          promote l.target_used above old_id k new_id >>= promoted l n k v
    ]

  -- Append once the spine begins with `leaf`.
  unfoldable pub append_from :
      BulkLoader → (leaf : ℕ) → List ℕ → List ℕ → List ℕ → Action State Outcome
  unfolding roll_leaf append_to_leaf should_roll
  append_from l leaf above k v = do
    d ← bytes p leaf
    if should_roll l.target_used d (leaf_cell_size k v)
        then roll_leaf l leaf above k v
        else append_to_leaf l leaf k v

  unfoldable pub append_at : BulkLoader → List ℕ → List ℕ → List ℕ → Action State Outcome
  unfolding alloc_node append_from
  append_at l [] k v = do
    made ← caught (alloc_leaf p)
    elim made [
      | err e ↦ pure (l, some e)
      | panic ↦ lift panic
      | ok n ↦ append_from (record l { spine = n ∷ [] }) n [] k v
    ]
  append_at l (leaf ∷ above) k v = append_from l leaf above k v

  unfoldable pub bulk_append : BulkLoader → List ℕ → List ℕ → Action State Outcome
  unfolding append_at in_order
  bulk_append l k v =
      if l.finished
      then pure (l, some bulk_loader_finished)
      else (if ltb max_key_size (length k)
          then pure (l, some key_too_big)
          else (if in_order l.last_key k
              then append_at l l.spine k v
              else pure (l, some bulk_loader_key_order)))

  abbrev top_id : List ℕ → Action State ℕ
  top_id [] = pure 0
  top_id (n ∷ []) = id p n
  top_id (n ∷ m ∷ above) = top_id (m ∷ above)

  -- Finish: the id of the root, 0 for an empty tree, or the error.
  unfoldable pub bulk_finish : BulkLoader → Action State (BulkLoader × Result ℕ)
  bulk_finish l =
      let built : Action State (BulkLoader × Result ℕ) = (do
        root_id ← top_id l.spine
        for_each p (release p) l.spine
        pure (record l { root = root_id; spine = []; finished = true }, ok root_id)) in
      let nothing : Action State (BulkLoader × Result ℕ) =
        pure (record l { finished = true }, ok 0) in
      if l.finished
      then pure (l, err bulk_loader_finished)
      else (if length l.spine == 0 then nothing else built)

  unfoldable pub bulk_abort : BulkLoader → Action State BulkLoader
  bulk_abort l =
      let drop_all : Action State BulkLoader = (do
        for_each p (λ n. id p n >>= λ i. release p n >> free_page p i) l.spine
        pure (record l { spine = []; finished = true })) in
      if l.finished then pure l else drop_all
