-- ===== src/BTree/Lookup.antt =====
-- Search, the value of a leaf's cell, and FreeAll. The fuel bounds the height of the tree and the
-- lengths of the chains of overflow pages.
use frostfire.Prelude.{
  ℕ, zero, suc, ◌+◌, ◌-◌, Bool, true, false, List, [], ◌∷◌, ◌==◌, if◌then◌else◌, Option, none, some,
  Result, ok, panic,
}
use frostfire.Bytes.{Bytes}
use frostfire.Node.{
  node_leaf, node_internal, leaf_cell_header, u16, read_le, read_slice, ntype, n_cells, cell_offset,
  child, search_leaf, search_internal, leaf_cell_overflow_id,
}
use frostfire.Prelude as P
use frostfire.BTree.Pages.{Pages}
use frostfire.BTree.Action.{
  Action, pure, lift, lift_loop, out_of_fuel, on_error, finally, ◌>>=◌, ◌>>◌,
}
use frostfire.BTree.Nodes.{bytes, release, free_page, get_node, read}
use frostfire.BTree.Overflow.{read_overflow_pages, free_overflow_pages}

-- What leafValue finds in a cell: the value, or the length of one on overflow pages and the first
-- of them.
pub data Stored : Type 0 where
  inline : List ℕ → Stored
  chained : (first vallen : ℕ) → Stored

unfoldable pub stored_value : Bytes → ℕ → Result Stored
stored_value d idx =
    if ntype d == node_leaf
    then (P.◌>>=◌ (cell_offset d idx) λ pos. P.◌>>=◌ (read_le 2 d pos) λ keylen.
        P.◌>>=◌ (read_le 2 d (u16 (pos + 2))) λ vallen.
          P.◌>>=◌ (read_le 1 d (u16 (pos + 4))) λ flag.
            let start = u16 (u16 (pos + leaf_cell_header) + keylen) in
            if flag == 1
            then (P.◌>>=◌ (read_le 8 d start) λ first. ok (chained first vallen))
            else (P.◌>>=◌ (read_slice vallen d start) λ v. ok (inline v)))
    else panic

module _ (p : Pages) where
  open p use {State}

  abbrev pub load_value : ℕ → Stored → Action State (List ℕ)
  load_value fuel (inline v) = pure v
  load_value fuel (chained first vallen) = read_overflow_pages p fuel first vallen

  unfoldable pub leaf_value : ℕ → ℕ → ℕ → Action State (List ℕ)
  leaf_value fuel n idx = read p n (λ d. stored_value d idx) >>= load_value fuel

  -- `none` is `nil`: the key is not there.
  abbrev pub value_at : ℕ → ℕ → ℕ × Bool → Action State (Option (List ℕ))
  unfolding leaf_value
  value_at fuel n (idx, true) = leaf_value fuel n idx >>= λ v. pure (some v)
  value_at fuel n (idx, false) = pure none

  -- The loop of Search, from node `n` on.
  unfoldable pub search_from : ℕ → ℕ → List ℕ → Action State (Option (List ℕ))
  unfolding leaf_value
  search_from zero n key = out_of_fuel
  search_from (suc fuel) n key = do
    d ← bytes p n
    let down : Action State (Option (List ℕ)) = (do
      idx ← lift_loop (search_internal d key)
      next ← lift (child d idx)
      release p n
      m ← get_node p next
      search_from fuel m key)
    let here : Action State (Option (List ℕ)) =
        finally (lift_loop (search_leaf d key) >>= value_at (suc fuel) n) (release p n)
    if ntype d == node_internal then down else here

  unfoldable pub search_tree : ℕ → (root : ℕ) → List ℕ → Action State (Option (List ℕ))
  unfolding search_from
  search_tree fuel root key =
      if root == 0 then pure none else (get_node p root >>= λ n. search_from fuel n key)

  -- The overflow chains of the cells from `idx` on.
  unfoldable pub free_chains : ℕ → Bytes → (count idx : ℕ) → Action State (Unit {0})
  free_chains fuel d zero idx = pure tt
  free_chains fuel d (suc count) idx = do
    first ← lift (leaf_cell_overflow_id d idx)
    if first == 0 then pure tt else free_overflow_pages p fuel first
    free_chains fuel d count (idx + 1)

  -- The children of an internal node from `idx` on.
  unfoldable pub children_from : Bytes → (count idx : ℕ) → Result (List ℕ)
  children_from d zero idx = ok []
  children_from d (suc count) idx =
      P.◌>>=◌ (child d idx) λ c. P.◌>>=◌ (children_from d count (idx + 1)) λ cs. ok (c ∷ cs)

  abbrev pub for_each : (ℕ → Action State (Unit {0})) → List ℕ → Action State (Unit {0})
  for_each f [] = pure tt
  for_each f (c ∷ cs) = f c >>= λ done. for_each f cs

  unfoldable pub free_subtree : ℕ → ℕ → Action State (Unit {0})
  unfolding free_chains children_from
  free_subtree zero i = out_of_fuel
  free_subtree (suc fuel) i =
      let round : Action State (Unit {0}) = (do
        n ← get_node p i
        d ← bytes p n
        let leaf : Action State (Unit {0}) = (do
          on_error (free_chains fuel d (n_cells d) 0) (release p n)
          release p n
          free_page p i)
        let internal : Action State (Unit {0}) = (do
          cs ← lift (children_from d (u16 (n_cells d + 1)) 0)
          release p n
          for_each (λ c. free_subtree fuel c) cs
          free_page p i)
        let other : Action State (Unit {0}) = release p n >>= λ done. lift panic
        if ntype d == node_leaf
            then leaf
            else (if ntype d == node_internal then internal else other)) in
      if i == 0 then pure tt else round
