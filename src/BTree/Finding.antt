-- ===== src/BTree/Finding.antt =====
-- Search answers as the contents of the tree do, at every height.
use frostfire.Prelude.{
  ℕ, zero, suc, ◌+◌, ◌<◌, ◌≡◌, ◌≢◌, List, Option, none, some, Result, ok, err, panic, arith, ne→==,
}
use frostfire.Bytes.{Bytes}
use frostfire.Node.{n_cells, search_leaf, search_internal}
use frostfire.Node.Search.{Descends, search_leaf-Finds, search_internal-Descends}
use frostfire.BTree.Pages.{Pages}
use frostfire.BTree.Action.{follow, lift_loop}
use frostfire.BTree.Nodes.{release}
use frostfire.BTree.Lookup.{value_at, search_from, search_tree}
use frostfire.BTree.Runs.{Run, Run-follow, Run-map, Run-finally, ReadLaws}
use frostfire.BTree.Trees.{Contents, IsTree}
use frostfire.BTree.Values.{
  Calm, Holding, Opened, get-Opened, release-Calm, Calm-trans, value_at-contents,
}

module _ {p : Pages} {page : ℕ → Bytes} {Live : ℕ → Type 0} (laws : ReadLaws p page Live) where
  open p use {State, get, unpin, bytes_of}
  open laws use {Good, pins, get_law, unpin_law}

  -- A search that answers as `contents`.
  abbrev Answers : Contents → List ℕ → State → Option (Result (Option (List ℕ)) × State) → Type 0
  Answers contents k s r = Run (λ v t. (v ≡ contents k) × Calm laws s t) (λ t. Calm laws s t) r

  -- Where an internal node is left, the frame is still held.
  pub Descends-Run :
      (s : State) (i n : ℕ) (k : List ℕ) (keys : ℕ → List ℕ) (count : ℕ) (r : Option (Result ℕ))
      (t : State)
      → Descends keys count k r
      → Opened laws s i n t
      → Run
          (λ idx u. Descends keys count k (some (ok idx)) × Opened laws s i n u)
          (λ u. Calm laws s u)
          (lift_loop r t)
  Descends-Run s i n k keys count (some (ok idx)) t d o = (d, o)
  Descends-Run s i n k keys count (some (err e)) t d o = elim d [ ]
  Descends-Run s i n k keys count (some panic) t d o = elim d [ ]
  Descends-Run s i n k keys count none t d o = elim d [ ]

  Answer-Calm :
      (contents : Contents) (k : List ℕ) (s t : State)
      (r : Option (Result (Option (List ℕ)) × State))
      → Calm laws s t
      → Answers contents k t r
      → Answers contents k s r
  Answer-Calm contents k s t r c h =
      Run-map (λ v u. (v ≡ contents k) × Calm laws t u) (λ v u. (v ≡ contents k) × Calm laws s u)
        (λ u. Calm laws t u) (λ u. Calm laws s u) r (λ v u a. (a.0, Calm-trans laws s t u c a.1))
        (λ u b. Calm-trans laws s t u c b) h

  pub IsTree-Live :
      (longest h i : ℕ) (contents : Contents)
      → IsTree page Live longest h i contents
      → (i ≢ 0) × Live i
  IsTree-Live longest zero i contents tree = (tree.0, tree.1)
  IsTree-Live longest (suc h) i contents tree = (tree.0, tree.1)

  search_from-contents :
      (longest h fuel : ℕ) (contents : Contents) (i n : ℕ) (k : List ℕ) (s t : State)
      → IsTree page Live longest h i contents
      → h + longest < fuel
      → Opened laws s i n t
      → Answers contents k s (search_from p fuel n k t)
  unfolding search_from
  search_from-contents longest h zero contents i n k s t tree enough o = elim enough [ ]
  search_from-contents longest zero (suc fuel) contents i n k s t (nonzero, live, leaf) enough o =
      rw (o.1, leaf.type)
        (Run-finally (λ v u. (v ≡ contents k) × Holding laws s n u)
          (λ v u. (v ≡ contents k) × Calm laws s u) (λ u. Holding laws s n u) (λ u. Calm laws s u)
          (λ u. follow (lift_loop (search_leaf (page i) k) u) (value_at p (suc fuel) n))
          (release p n) t
          (value_at-contents laws longest leaf k s n (suc fuel) t (search_leaf (page i) k)
            (omega arith) o (search_leaf-Finds (page i) leaf.keys k leaf.sorted leaf.readable))
          (λ v u a.
            Run-map (λ (x : Unit {0}) w. Calm laws s w)
              (λ (x : Unit {0}) w. (v ≡ contents k) × Calm laws s w) (λ w. Calm laws s w)
              (λ w. Calm laws s w) (release p n u) (λ x w c. (a.0, c)) (λ w c. c)
              (release-Calm laws n s u a.1))
          (λ u a. release-Calm laws n s u a))
  search_from-contents longest (suc h) (suc fuel) contents i n k s t (nonzero, live, inner) enough
        o =
      rw (o.1, inner.type)
        (Run-follow
          (λ idx u. Descends inner.keys (n_cells (page i)) k (some (ok idx)) × Opened laws s i n u)
          (λ v u. (v ≡ contents k) × Calm laws s u) (λ u. Calm laws s u)
          (lift_loop (search_internal (page i) k) t) _
          (Descends-Run s i n k inner.keys (n_cells (page i)) (search_internal (page i) k) t
            (search_internal-Descends (page i) inner.keys k inner.sorted inner.readable) o)
          λ idx u b.
            let part : Contents = inner.parts idx in
            let c : ℕ = inner.children idx in
            let below : IsTree page Live longest h c part = inner.below idx b.0.0 in
            rw (inner.linked idx b.0.0, inner.divided k idx b.0.0 b.0.1 b.0.2)
              (Run-follow (λ (x : Unit {0}) w. Calm laws s w) (λ v w. (v ≡ part k) × Calm laws s w)
                (λ w. Calm laws s w) (release p n u) _ (release-Calm laws n s u (b.1.0, b.1.2))
                λ x w calm. Answer-Calm part k s w _ calm (
                  Run-follow (λ m z. Opened laws w c m z) (λ v z. (v ≡ part k) × Calm laws w z)
                    (λ z. Calm laws w z) (some (get c w)) _
                    (get-Opened laws c w (IsTree-Live longest h c part below).1 calm.0)
                    λ m z o'.
                      search_from-contents longest h fuel part c m k w z below (omega arith) o')))

  -- In a tree of pages of height `h` that holds `contents`, whose overflow chains have at most
  -- `longest` pages, Search answers with `contents key` or passes on an error of the store: it
  -- neither panics nor loops. However it ends, every page is as before and so is every pin.
  pub search_tree-contents :
      (longest h fuel root : ℕ) (contents : Contents) (key : List ℕ) (s : State)
      → IsTree page Live longest h root contents
      → h + longest < fuel
      → Good s
      → Run
          (λ v t. (v ≡ contents key) × Calm laws s t)
          (λ t. Calm laws s t)
          (search_tree p fuel root key s)
  unfolding search_tree
  search_tree-contents longest h fuel root contents key s tree enough good =
      let alive : (root ≢ 0) × Live root = IsTree-Live longest h root contents tree in
      rw (ne→== root 0 alive.0) (
        Run-follow (λ n t. Opened laws s root n t) (λ v t. (v ≡ contents key) × Calm laws s t)
          (λ t. Calm laws s t) (some (get root s)) _ (get-Opened laws root s alive.1 good)
          λ n t o. search_from-contents longest h fuel contents root n key s t tree enough o)
