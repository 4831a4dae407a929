-- ===== src/BTree/Idle.antt =====
-- Update and Delete where there is nothing to do: they leave the tree, its pages and the pins alone.
use frostfire.Prelude.{
  subst, key_too_big, ℕ, zero, suc, ◌+◌, ◌<◌, ◌≡◌, ◌≢◌, refl, sym, ◌∙◌, Bool, true, false, List,
  length, Option, none, some, Result, ok, err, panic, arith, if◌then◌else◌, ◌==◌, ne→==, ltb,
}
use frostfire.Bytes.{Bytes}
use frostfire.Node.{max_key_size, n_cells, search_leaf}
use frostfire.Node.Search.{Finds, search_leaf-Finds}
use frostfire.BTree.Pages.{Pages}
use frostfire.BTree.Action.{Action, follow, pure, raise, lift_loop, finally, ◌>>=◌}
use frostfire.BTree.Nodes.{release, get_node}
use frostfire.BTree.Lookup.{leaf_value}
use frostfire.BTree.Split.{Change, kept}
use frostfire.BTree.Update.{
  Mode, upsert, insert, update, same_bytes, replace_leaf_value, add_leaf_value, place_value,
  update_leaf, pass_up, update_internal, update_node, new_root, update_tree, insert_first,
}
use frostfire.BTree.Delete.{
  remove_from_leaf, mend_child, shrink_root, remove_at, delete_from_leaf, after_delete,
  delete_from_internal, delete_node, finish_delete, delete_tree,
}
use frostfire.BTree.Equal.{same_bytes_self}
use frostfire.BTree.Runs.{ReadLaws}
use frostfire.BTree.Trees.{Contents, IsLeaf, Gives, IsTree}
use frostfire.BTree.Values.{Leaves, leaf_value-values, found_contents, missing_contents}
use frostfire.BTree.Finding.{IsTree-Live}
use frostfire.BTree.Visits.{Leaves-follow, Leaves-visit, Leaves-descend}

-- An Update that has nothing to write: an insert of a key that is there, an update of one that is
-- not, and a value that is there already.
abbrev pub Idle : Mode → Option (List ℕ) → List ℕ → Type 0
Idle insert here v = here ≢ none
Idle update here v = here ≢ none → here ≡ some v
Idle upsert here v = here ≡ some v

-- Such an Update succeeds only where the value is there and need not be new.
abbrev pub Stays : Mode → Option (List ℕ) → List ℕ → Type 0
Stays mode here v = (mode ≢ insert) × (here ≡ some v)

module _ {p : Pages} {page : ℕ → Bytes} {Live : ℕ → Type 0} (laws : ReadLaws p page Live)
    (longest : ℕ) (k v : List ℕ) where
  open p use {State, get, unpin, bytes_of}
  open laws use {Good, pins, get_law, unpin_law}

  abbrev Unchanged : Mode → Option (List ℕ) → Change → Type 0
  Unchanged mode here change = (change ≡ kept) × Stays mode here v

  rewrite-Unchanged :
      (mode : Mode) (here : Option (List ℕ)) (w : List ℕ) (s : State)
      (r : Option (Result (List ℕ) × State)) (k : List ℕ → Action State Change)
      → mode ≢ insert
      → here ≡ some w
      → here ≡ some v
      → Leaves laws (λ x. x ≡ w) s r
      → Leaves laws
          (Unchanged mode here)
          s
          (follow r λ existing. if same_bytes existing v then pure kept else k existing)
  rewrite-Unchanged mode here w s r k ne at same h =
      Leaves-follow laws (λ x. x ≡ w) (Unchanged mode here) s r _ h
        λ x t e calm.
          let same_value : w ≡ v = cc in
          rw (e, same_value, same_bytes_self v) ((refl, (ne, same)), (calm.0, λ m. refl))

  module _ {contents : Contents} {i : ℕ}
      (leaf : IsLeaf (Gives page Live longest) (page i) contents) where
    place_value-Unchanged :
        (mode : Mode) (fuel n : ℕ) (t : State) (r : Option (Result (ℕ × Bool)))
        → longest < fuel
        → Idle mode (contents k) v
        → Good t
        → bytes_of n t ≡ page i
        → Finds leaf.keys (n_cells (page i)) k r
        → Leaves laws
            (Unchanged mode (contents k))
            t
            (follow (lift_loop r t) (place_value p fuel n k v mode))
    unfolding replace_leaf_value add_leaf_value
    place_value-Unchanged insert fuel n t (some (ok (idx, true))) h idle good e place =
        (good, λ m. refl)
    place_value-Unchanged insert fuel n t (some (ok (idx, false))) h idle good e place =
        absurd (idle (missing_contents laws longest leaf k idx place))
    place_value-Unchanged update fuel n t (some (ok (idx, true))) h idle good e place =
        let found : contents k ≡ some (leaf.values idx) =
          found_contents laws longest leaf k idx place in
        rewrite-Unchanged update (contents k) (leaf.values idx) t (leaf_value p fuel n idx t) _
          (λ x. cc) found (idle (λ x. cc))
          (leaf_value-values laws longest leaf fuel idx n t h place.0 good e)
    place_value-Unchanged update fuel n t (some (ok (idx, false))) h idle good e place =
        (good, λ m. refl)
    place_value-Unchanged upsert fuel n t (some (ok (idx, true))) h idle good e place =
        rewrite-Unchanged upsert (contents k) (leaf.values idx) t (leaf_value p fuel n idx t) _
          (λ x. cc) (found_contents laws longest leaf k idx place) idle
          (leaf_value-values laws longest leaf fuel idx n t h place.0 good e)
    place_value-Unchanged upsert fuel n t (some (ok (idx, false))) h idle good e place =
        let gone : contents k ≡ none = missing_contents laws longest leaf k idx place in cc
    place_value-Unchanged mode fuel n t (some (err x)) h idle good e f = elim f [ ]
    place_value-Unchanged mode fuel n t (some panic) h idle good e f = elim f [ ]
    place_value-Unchanged mode fuel n t none h idle good e f = elim f [ ]

  update_node-Unchanged :
      (mode : Mode) (h fuel : ℕ) (contents : Contents) (i n : ℕ) (t : State)
      → IsTree page Live longest h i contents
      → h + longest + 1 < fuel
      → Idle mode (contents k) v
      → Good t
      → bytes_of n t ≡ page i
      → Leaves laws (Unchanged mode (contents k)) t (update_node p fuel n k v mode t)
  unfolding update_node update_leaf update_internal pass_up replace_leaf_value add_leaf_value
  update_node-Unchanged mode h zero contents i n t tree enough idle good e = absurd (omega arith)
  update_node-Unchanged mode zero (suc fuel) contents i n t (nonzero, live, leaf) enough idle good
        e =
      rw (e, leaf.type)
        (rw e (
          place_value-Unchanged leaf mode fuel n t (search_leaf (page i) k) (omega arith) idle good
            e (search_leaf-Finds (page i) leaf.keys k leaf.sorted leaf.readable)))
  update_node-Unchanged mode (suc h) (suc fuel) contents i n t (nonzero, live, inner) enough idle
        good e =
      rw (e, inner.type)
        (Leaves-descend laws (Unchanged mode (contents k)) (Unchanged mode (contents k)) longest h
          contents i n k t (λ c. update_node p fuel c k v mode) (pass_up p n) inner good e
          (λ c m part u below same good' e'.
            subst (λ here. Leaves laws (Unchanged mode here) u (update_node p fuel m k v mode u))
              (sym same)
              (update_node-Unchanged mode h fuel part c m u below (omega arith)
                (subst (λ here. Idle mode here v) same idle) good' e'))
          (λ idx c a u unchanged good'. rw unchanged.0 ((refl, unchanged.1), (good', λ m. refl))))

  -- In a tree that holds `contents`, an Update that has nothing to write - an insert of a key that is
  -- there, an update of one that is not, a value that is there already - ends without panic: it
  -- succeeds only where the mode is not insert and the value is the one that is there, and the root
  -- is then the old one; otherwise it is an error. However it ends, every page is as before and so
  -- is every pin.
  pub update_tree-Idle :
      (mode : Mode) (h fuel root : ℕ) (contents : Contents) (s : State)
      → IsTree page Live longest h root contents
      → h + longest + 1 < fuel
      → Idle mode (contents k) v
      → Good s
      → Leaves laws
          (λ root'. (root' ≡ root) × Stays mode (contents k) v)
          s
          (update_tree p fuel root k v mode s)
  unfolding update_tree new_root
  update_tree-Idle mode h fuel root contents s tree enough idle good =
      let alive : (root ≢ 0) × Live root = IsTree-Live laws longest h root contents tree in
      elim (ltb max_key_size (length k))
        as (λ b.
          Leaves laws (λ root'. (root' ≡ root) × Stays mode (contents k) v) s
            ((if b
                then raise key_too_big
                else (if root == 0
                    then insert_first p k v mode
                    else (get_node p root >>= λ n.
                        finally (update_node p fuel n k v mode) (release p n) >>= λ change.
                        new_root p change root)))
              s)) [
                | true ↦ (good, λ m. refl)
                | false ↦ rw (ne→== root 0 alive.0) (
                    Leaves-visit laws (Unchanged mode (contents k))
                      (λ root'. (root' ≡ root) × Stays mode (contents k) v) root s
                      (λ n. update_node p fuel n k v mode) (λ change. new_root p change root)
                      alive.1 good
                      (λ n t good' e.
                        update_node-Unchanged mode h fuel contents root n t tree enough idle good'
                          e)
                      (λ a u unchanged good'.
                        rw unchanged.0 ((refl, unchanged.1), (good', λ m. refl))))
              ]

module _ {p : Pages} {page : ℕ → Bytes} {Live : ℕ → Type 0} (laws : ReadLaws p page Live)
    (longest : ℕ) (k : List ℕ) where
  open p use {State, get, unpin, bytes_of}
  open laws use {Good, pins, get_law, unpin_law}

  place-Absent :
      {contents : Contents} {i : ℕ} (leaf : IsLeaf (Gives page Live longest) (page i) contents)
      (fuel n : ℕ) (t : State) (r : Option (Result (ℕ × Bool)))
      → contents k ≡ none
      → Good t
      → Finds leaf.keys (n_cells (page i)) k r
      → Leaves laws (λ m. m ≡ none) t (follow (lift_loop r t) (remove_at p fuel n))
  unfolding remove_from_leaf
  place-Absent leaf fuel n t (some (ok (idx, true))) missing good place =
      let found : _ ≡ some (leaf.values idx) = found_contents laws longest leaf k idx place in cc
  place-Absent leaf fuel n t (some (ok (idx, false))) missing good place = (refl, (good, λ m. refl))
  place-Absent leaf fuel n t (some (err x)) missing good f = elim f [ ]
  place-Absent leaf fuel n t (some panic) missing good f = elim f [ ]
  place-Absent leaf fuel n t none missing good f = elim f [ ]

  delete_node-Absent :
      (h fuel : ℕ) (contents : Contents) (i n : ℕ) (t : State)
      → IsTree page Live longest h i contents
      → h < fuel
      → contents k ≡ none
      → Good t
      → bytes_of n t ≡ page i
      → Leaves laws (λ m. m ≡ none) t (delete_node p fuel n k t)
  unfolding delete_node delete_from_leaf delete_from_internal mend_child remove_from_leaf
  delete_node-Absent h zero contents i n t tree enough missing good e = elim enough [ ]
  delete_node-Absent zero (suc fuel) contents i n t (nonzero, live, leaf) enough missing good e =
      rw (e, leaf.type)
        (rw e (
          place-Absent leaf fuel n t (search_leaf (page i) k) missing good
            (search_leaf-Finds (page i) leaf.keys k leaf.sorted leaf.readable)))
  delete_node-Absent (suc h) (suc fuel) contents i n t (nonzero, live, inner) enough missing good
        e =
      rw (e, inner.type)
        (Leaves-descend laws (λ m. m ≡ none) (λ m. m ≡ none) longest h contents i n k t
          (λ c. delete_node p fuel c k) (after_delete p n) inner good e
          (λ c m part u below same good' e'.
            delete_node-Absent h fuel part c m u below (omega arith) (sym same ∙ missing) good' e')
          (λ idx c a u gone good'. rw gone (refl, (good', λ m. refl))))

  -- Delete of a key that the tree does not hold reports that and returns the root, or an error of
  -- the store. However it ends, every page is as before and so is every pin.
  pub delete_tree-absent :
      (h fuel root : ℕ) (contents : Contents) (s : State)
      → IsTree page Live longest h root contents
      → h < fuel
      → contents k ≡ none
      → Good s
      → Leaves laws (λ r. r ≡ (root, false)) s (delete_tree p fuel root k s)
  unfolding delete_tree shrink_root
  delete_tree-absent h fuel root contents s tree enough missing good =
      let alive : (root ≢ 0) × Live root = IsTree-Live laws longest h root contents tree in
      rw (ne→== root 0 alive.0) (
        Leaves-visit laws (λ m. m ≡ none) (λ r. r ≡ (root, false)) root s
          (λ n. delete_node p fuel n k) (finish_delete p root) alive.1 good
          (λ n t good' e. delete_node-Absent h fuel contents root n t tree enough missing good' e)
          (λ a u gone good'. rw gone (refl, (good', λ m. refl))))
