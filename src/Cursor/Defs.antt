-- ===== src/Cursor/Defs.antt =====
-- The operations of a cursor. Each returns the cursor's new stack with its result. Errors of the
-- tree end the walk, and the caller does not see them.
use frostfire.Prelude.{
  ℕ, zero, suc, ◌+◌, ◌-◌, Bool, true, false, List, [], ◌∷◌, map, reverse, ltb, ◌==◌, if◌then◌else◌,
  Option, none, some,
}
use frostfire.Node.{node_leaf, u16, sub16, ntype, n_cells, key, child, search_leaf, search_internal}
use frostfire.BTree.Pages.{Pages}
use frostfire.BTree.Action.{Action, pure, lift, lift_loop, out_of_fuel, attempt, ◌>>=◌}
use frostfire.BTree.Nodes.{bytes, release, get_node, read}
use frostfire.BTree.Lookup.{leaf_value, for_each}

-- `cursorFrame`: the node's frame and an index. The top of the stack comes first.
abbrev pub Stack : Type 0
Stack = List (ℕ × ℕ)

-- A key and its value; `none` is `nil, nil`.
abbrev pub Entry : Type 0
Entry = Option (List ℕ × List ℕ)

module _ (p : Pages) where
  open p use {State}

  -- Close unpins the frames from the root on, and empties the stack.
  unfoldable pub close : Stack → Action State Stack
  close stack =
      for_each p (release p) (map (λ (f : ℕ × ℕ). f.0) (reverse stack)) >>= λ done. pure []

  unfoldable pub is_valid : Stack → Action State Bool
  is_valid [] = pure false
  is_valid ((n, i) ∷ rest) = bytes p n >>= λ d. pure (ltb i (n_cells d))

  -- Key, Value and kv, where the cursor is valid.
  unfoldable pub cursor_key : Stack → Action State (Option (List ℕ))
  unfolding is_valid
  cursor_key [] = pure none
  cursor_key ((n, i) ∷ rest) = do
    valid ← is_valid ((n, i) ∷ rest)
    if valid then (read p n (λ d. key d i) >>= λ k. pure (some k)) else pure none

  unfoldable pub cursor_value : ℕ → Stack → Action State (Option (List ℕ))
  unfolding is_valid leaf_value
  cursor_value fuel [] = pure none
  cursor_value fuel ((n, i) ∷ rest) = do
    valid ← is_valid ((n, i) ∷ rest)
    if valid then (leaf_value p fuel n i >>= λ v. pure (some v)) else pure none

  abbrev with_value : List ℕ → Option (List ℕ) → Entry
  with_value k none = none
  with_value k (some v) = some (k, v)

  unfoldable pub kv : ℕ → Stack → Action State (Stack × Entry)
  unfolding is_valid leaf_value
  kv fuel [] = pure ([], none)
  kv fuel ((n, i) ∷ rest) = do
    valid ← is_valid ((n, i) ∷ rest)
    let entry : Action State (Stack × Entry) = (do
      k ← read p n (λ d. key d i)
      v ← attempt (leaf_value p fuel n i)
      pure ((n, i) ∷ rest, with_value k v))
    if valid then entry else pure ((n, i) ∷ rest, none)

  -- The walks down to a leaf; `false` is an error, and the stack has the nodes read so far.
  unfoldable pub descend_leftmost : ℕ → ℕ → Stack → Action State (Stack × Bool)
  descend_leftmost zero i stack = out_of_fuel
  descend_leftmost (suc fuel) i stack = do
    found ← attempt (get_node p i)
    elim found [
      | none ↦ pure (stack, false)
      | some n ↦ bytes p n >>= λ d.
          let deeper : Action State (Stack × Bool) =
            lift (child d 0) >>= λ c. descend_leftmost fuel c ((n, 0) ∷ stack) in
          if ntype d == node_leaf then pure ((n, 0) ∷ stack, true) else deeper
    ]

  unfoldable pub descend_rightmost : ℕ → ℕ → Stack → Action State (Stack × Bool)
  descend_rightmost zero i stack = out_of_fuel
  descend_rightmost (suc fuel) i stack = do
    found ← attempt (get_node p i)
    elim found [
      | none ↦ pure (stack, false)
      | some n ↦ bytes p n >>= λ d.
          let last = if ltb 0 (n_cells d) then sub16 (n_cells d) 1 else 0 in
          let deeper : Action State (Stack × Bool) =
            lift (child d (n_cells d)) >>= λ c. descend_rightmost fuel c ((n, n_cells d) ∷ stack) in
          if ntype d == node_leaf then pure ((n, last) ∷ stack, true) else deeper
    ]

  abbrev kv_if_valid : ℕ → Stack → Action State (Stack × Entry)
  unfolding is_valid kv
  kv_if_valid fuel stack = do
    valid ← is_valid stack
    if valid then kv fuel stack else pure (stack, none)

  abbrev settled : ℕ → Stack × Bool → Action State (Stack × Entry)
  unfolding kv_if_valid is_valid kv
  settled fuel (stack, true) = kv_if_valid fuel stack
  settled fuel (stack, false) = pure (stack, none)

  -- `root` is none for the cursor of a dropped bucket, and 0 for an empty tree.
  abbrev pub from_root :
      Option ℕ → Stack → (ℕ → Action State (Stack × Entry)) → Action State (Stack × Entry)
  unfolding close
  from_root root stack walk = do
    empty ← close stack
    elim root [ none ↦ pure (empty, none) | some r ↦ if r == 0 then pure (empty, none) else walk r ]

  unfoldable pub first : ℕ → Option ℕ → Stack → Action State (Stack × Entry)
  unfolding descend_leftmost settled
  first fuel root stack = from_root root stack λ r. descend_leftmost fuel r [] >>= settled fuel

  unfoldable pub last : ℕ → Option ℕ → Stack → Action State (Stack × Entry)
  unfolding descend_rightmost settled
  last fuel root stack = from_root root stack λ r. descend_rightmost fuel r [] >>= settled fuel

  -- Next and Prev, in an inner node: an error closes the cursor.
  abbrev settled_or_closed : ℕ → Stack × Bool → Action State (Stack × Entry)
  unfolding kv_if_valid is_valid kv close
  settled_or_closed fuel (stack, true) = kv_if_valid fuel stack
  settled_or_closed fuel (stack, false) = close stack >>= λ empty. pure (empty, none)

  -- The loop of Next, from the parent of the node that was left.
  unfoldable pub climb_next : ℕ → Stack → Action State (Stack × Entry)
  unfolding descend_leftmost settled_or_closed
  climb_next fuel [] = pure ([], none)
  climb_next fuel ((n, i) ∷ rest) = do
    d ← bytes p n
    let right : Action State (Stack × Entry) = (do
      c ← lift (child d (u16 (i + 1)))
      descend_leftmost fuel c ((n, u16 (i + 1)) ∷ rest) >>= settled_or_closed fuel)
    let up : Action State (Stack × Entry) = release p n >>= λ done. climb_next fuel rest
    if ltb i (n_cells d) then right else up

  unfoldable pub next : ℕ → Stack → Action State (Stack × Entry)
  unfolding climb_next kv
  next fuel [] = pure ([], none)
  next fuel ((n, i) ∷ rest) = do
    d ← bytes p n
    if ltb (u16 (i + 1)) (n_cells d)
        then kv fuel ((n, u16 (i + 1)) ∷ rest)
        else (release p n >>= λ done. climb_next fuel rest)

  unfoldable pub climb_prev : ℕ → Stack → Action State (Stack × Entry)
  unfolding descend_rightmost settled_or_closed
  climb_prev fuel [] = pure ([], none)
  climb_prev fuel ((n, i) ∷ rest) = do
    d ← bytes p n
    let left : Action State (Stack × Entry) = (do
      c ← lift (child d (i - 1))
      descend_rightmost fuel c ((n, i - 1) ∷ rest) >>= settled_or_closed fuel)
    let up : Action State (Stack × Entry) = release p n >>= λ done. climb_prev fuel rest
    if ltb 0 i then left else up

  unfoldable pub prev : ℕ → Stack → Action State (Stack × Entry)
  unfolding climb_prev kv
  prev fuel [] = pure ([], none)
  prev fuel ((n, i) ∷ rest) =
      if ltb 0 i
      then kv fuel ((n, i - 1) ∷ rest)
      else (release p n >>= λ done. climb_prev fuel rest)

  -- Seek, from page `i` on.
  unfoldable pub seek_from : ℕ → ℕ → List ℕ → Stack → Action State (Stack × Entry)
  unfolding close next kv
  seek_from zero i target stack = out_of_fuel
  seek_from (suc fuel) i target stack = do
    found ← attempt (get_node p i)
    elim found [
      | none ↦ close stack >>= λ empty. pure (empty, none)
      | some n ↦ bytes p n >>= λ d.
          let here : Action State (Stack × Entry) =
            lift_loop (search_leaf d target) >>= λ (idx, exact).
            if ltb idx (n_cells d)
            then kv fuel ((n, idx) ∷ stack)
            else next fuel ((n, idx) ∷ stack) in
          let deeper : Action State (Stack × Entry) =
            lift_loop (search_internal d target) >>= λ idx.
            lift (child d idx) >>= λ c. seek_from fuel c target ((n, idx) ∷ stack) in
          if ntype d == node_leaf then here else deeper
    ]

  unfoldable pub seek : ℕ → Option ℕ → List ℕ → Stack → Action State (Stack × Entry)
  unfolding seek_from
  seek fuel root target stack = from_root root stack λ r. seek_from fuel r target []
