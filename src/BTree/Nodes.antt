-- ===== src/BTree/Nodes.antt =====
-- Nodes: a page in its frame, and the operations of bnode.go on it.
use frostfire.Prelude.{ℕ, List, Result, ok}
use frostfire.Bytes.{Bytes}
use frostfire.Node.{
  node_leaf, node_internal, init_node, copy_range, append_leaf_cell, append_internal_cell,
  set_rightmost_child,
}
use frostfire.BTree.Pages.{Pages}
use frostfire.BTree.Action.{Action, pure, call, lift, ◌>>=◌, ◌>>◌}

module _ (p : Pages) where
  open p use {State, get, allocate, unpin, id_of, bytes_of, set_bytes}

  -- `n.data()`
  abbrev pub bytes : ℕ → Action State Bytes
  bytes n s = pure (bytes_of n s) s

  abbrev pub id : ℕ → Action State ℕ
  id n s = pure (id_of n s) s

  abbrev pub release : ℕ → Action State (Unit {0})
  release n = call (unpin n)

  abbrev pub free_page : ℕ → Action State (Unit {0})
  free_page i = call (p.free i)

  abbrev pub get_node : ℕ → Action State ℕ
  get_node i = call (get i)

  abbrev pub write_bytes : ℕ → Bytes → Action State (Unit {0})
  write_bytes n d s = pure tt (set_bytes n d s)

  -- A method that reads a node, and one that changes it.
  abbrev pub read : {A : Type 0} → ℕ → (Bytes → Result A) → Action State A
  read n f = bytes n >>= λ d. lift (f d)

  abbrev pub edit : ℕ → (Bytes → Result Bytes) → Action State (Unit {0})
  edit n f = read n f >>= write_bytes n

  unfoldable pub alloc_node : ℕ → Action State ℕ
  alloc_node type = do n ← call allocate; edit n (λ d. ok (init_node type d)); pure n

  abbrev pub alloc_leaf : Action State ℕ
  unfolding alloc_node
  alloc_leaf = alloc_node node_leaf

  abbrev pub alloc_internal : Action State ℕ
  unfolding alloc_node
  alloc_internal = alloc_node node_internal

  -- `dst.copyRange(src, start, count)` and the like, the receiver first.
  abbrev pub copy_range_to : ℕ → ℕ → ℕ → ℕ → Action State (Unit {0})
  copy_range_to dst src start count = bytes src >>= λ d. edit dst (copy_range d start count)

  abbrev pub append_internal_to : ℕ → ℕ → List ℕ → Action State (Unit {0})
  append_internal_to n c k = edit n (append_internal_cell c k)

  abbrev pub append_leaf_to : ℕ → List ℕ → List ℕ → ℕ → Action State (Unit {0})
  append_leaf_to n k v overflow_id = edit n (append_leaf_cell k v overflow_id)

  abbrev pub set_rightmost_of : ℕ → ℕ → Action State (Unit {0})
  set_rightmost_of n c = edit n (λ d. ok (set_rightmost_child c d))
