-- ===== src/BTree/Values.antt =====
-- The value of a leaf's cell, read from the cell or from its overflow pages.
use frostfire.Prelude.{
  ℕ, zero, suc, ◌+◌, ◌-◌, ◌<◌, ◌≡◌, ◌≢◌, refl, sym, ap, ◌∙◌, Bool, true, false, List, [], ◌∷◌, ◌++◌,
  min, length, Option, none, some, Result, ok, err, panic, arith, ne→==, dec_lt,
}
use frostfire.Bytes.{Bytes, slice}
use frostfire.Node.{n_cells}
use frostfire.Node.Key.{compare, compare_self}
use frostfire.Node.Search.{Place, Finds}
use frostfire.BTree.Pages.{Pages}
use frostfire.BTree.Action.{follow, lift_loop}
use frostfire.BTree.Nodes.{release}
use frostfire.BTree.Overflow.{
  overflow_chunk_size, overflow_header_size, next_of, read_chunks, read_overflow_pages,
}
use frostfire.BTree.Lookup.{Stored, inline, chained, load_value, leaf_value, value_at}
use frostfire.BTree.Runs.{Run, Run-follow, Run-map, Got, ReadLaws, one_if}
use frostfire.BTree.Trees.{Contents, IsLeaf, IsChain, collect, Gives}

module _ {p : Pages} {page : ℕ → Bytes} {Live : ℕ → Type 0} (laws : ReadLaws p page Live) where
  open p use {State, get, unpin, bytes_of}
  open laws use {Good, pins, get_law, unpin_law}

  -- No page and no pin has changed.
  abbrev pub Calm : State → State → Type 0
  Calm s t = Good t × ((m : ℕ) → pins t m ≡ pins s m)

  -- Frame `n` has one pin more.
  abbrev pub Holding : State → ℕ → State → Type 0
  Holding s n t = Good t × ((m : ℕ) → pins t m ≡ pins s m + one_if m n)

  abbrev pub Opened : State → ℕ → ℕ → State → Type 0
  Opened s i n t = Good t × (bytes_of n t ≡ page i) × ((m : ℕ) → pins t m ≡ pins s m + one_if m n)

  -- A run that ends with a result of which `Fin` holds, or with an error, and changes no page and
  -- no pin.
  abbrev pub Leaves : {A : Type 0} → (A → Type 0) → State → Option (Result A × State) → Type 0
  Leaves Fin s r = Run (λ a u. Fin a × Calm s u) (λ u. Calm s u) r

  pub get-Opened :
      (i : ℕ) (s : State)
      → Live i
      → Good s
      → Run (λ n t. Opened s i n t) (λ t. Calm s t) (some (get i s))
  get-Opened i s live good = go (get i s) (get_law i s live good)
    where
      go :
          (r : Result ℕ × State)
          → Got p page Good pins s i r
          → Run (λ n t. Opened s i n t) (λ t. Calm s t) (some r)
      go (ok n, t) h = h
      go (err e, t) h = h
      go (panic, t) h = h

  pub release-Calm :
      (n : ℕ) (s t : State)
      → Holding s n t
      → Run (λ (u : Unit {0}) t'. Calm s t') (λ t'. Calm s t') (release p n t)
  release-Calm n s t (good, more) = go (unpin n t) (unpin_law n t good (ground (arith, more n)))
    where
      go :
          (r : Result (Unit {0}) × State)
          → (r.0 ≡ ok tt) × Good r.1 × ((m : ℕ) → pins r.1 m ≡ pins t m - one_if m n)
          → Run (λ (u : Unit {0}) t'. Calm s t') (λ t'. Calm s t') (some r)
      go (ok u, t') (e, good', fewer) = (good', λ m. ground (arith, fewer m, more m))
      go (err e', t') (e, good', fewer) = cc
      go (panic, t') (e, good', fewer) = cc

  pub Calm-trans : (r s t : State) → Calm r s → Calm s t → Calm r t
  Calm-trans r s t (g, a) (g', b) = (g', λ m. b m ∙ a m)

  pub Holding-Calm : (s t u : State) (n : ℕ) → Holding s n t → Calm t u → Holding s n u
  Holding-Calm s t u n (g, a) (g', b) = (g', λ m. b m ∙ a m)

  -- Reading a chain gives what is on its pages.
  pub read_chunks-collect :
      (ids : List ℕ) (fuel first vallen : ℕ) (value : List ℕ) (s : State)
      → IsChain page Live ids first
      → length ids < fuel
      → Good s
      → Run
          (λ v t. (v ≡ collect page Live vallen value ids) × Calm s t)
          (λ t. Calm s t)
          (read_chunks p fuel first vallen value s)
  unfolding read_chunks collect
  read_chunks-collect ids zero first vallen value s c h good = elim h [ ]
  read_chunks-collect [] (suc fuel) first vallen value s c h good = rw c (refl, (good, λ m. refl))
  read_chunks-collect (i ∷ ids) (suc fuel) first vallen value s (at, nonzero, live, c) h good =
      let more : List ℕ =
        value
        ++ slice (min overflow_chunk_size (vallen - length value)) (page i) overflow_header_size in
      rw (at, ne→== i 0 nonzero)
        (Run-follow (λ n t. Opened s i n t)
          (λ v t. (v ≡ collect page Live vallen more ids) × Calm s t) (λ t. Calm s t)
          (some (get i s)) _ (get-Opened i s live good)
          λ n t o.
            Run-follow (λ (u : Unit {0}) t'. Calm s t')
              (λ v t. (v ≡ collect page Live vallen more ids) × Calm s t) (λ t. Calm s t)
              (release p n t) _ (release-Calm n s t (o.0, o.2))
              λ u t' calm. rw o.1 (
                Run-map (λ v t. (v ≡ collect page Live vallen more ids) × Calm t' t)
                  (λ v t. (v ≡ collect page Live vallen more ids) × Calm s t) (λ t. Calm t' t)
                  (λ t. Calm s t) (read_chunks p fuel (next_of (page i)) vallen more t')
                  (λ v u a. (a.0, Calm-trans s t' u calm a.1)) (λ u b. Calm-trans s t' u calm b)
                  (read_chunks-collect ids fuel (next_of (page i)) vallen more t' c (omega arith)
                    calm.0)))

  module _ (longest : ℕ) where
    load_value-Gives :
        (fuel : ℕ) (cell : Stored) (v : List ℕ) (s : State)
        → longest < fuel
        → Gives page Live longest cell v
        → Good s
        → Run (λ w t. (w ≡ v) × Calm s t) (λ t. Calm s t) (load_value p fuel cell s)
    unfolding read_overflow_pages
    load_value-Gives fuel (inline w) v s h g good = (sym g, (good, λ m. refl))
    load_value-Gives fuel (chained first vallen) v s h (ids, c, short, e) good =
        rw e (read_chunks-collect ids fuel first vallen [] s c (omega arith) good)

    module _ {contents : Contents} {i : ℕ}
        (leaf : IsLeaf (Gives page Live longest) (page i) contents) where
      pub leaf_value-values :
          (fuel idx n : ℕ) (t : State)
          → longest < fuel
          → idx < n_cells (page i)
          → Good t
          → bytes_of n t ≡ page i
          → Leaves (λ w. w ≡ leaf.values idx) t (leaf_value p fuel n idx t)
      unfolding leaf_value
      leaf_value-values fuel idx n t h lt good e =
          rw (e, leaf.stored idx lt)
            (load_value-Gives fuel (leaf.cells idx) (leaf.values idx) t h (leaf.gives idx lt) good)

      module _ (k : List ℕ) (idx : ℕ) where
        pub found_contents :
            Place leaf.keys (n_cells (page i)) k idx true → contents k ≡ some (leaf.values idx)
        found_contents (lt, e) = sym (ap contents e) ∙ leaf.present idx lt

        pub missing_contents : Place leaf.keys (n_cells (page i)) k idx false → contents k ≡ none
        missing_contents (le, lower, upper) = leaf.absent k missing
          where
            missing : (j : ℕ) → j < n_cells (page i) → leaf.keys j ≢ k
            missing j lt e = elim (dec_lt j idx) [
              | yes q ↦ cc (compare_self k, lower j q, ap (λ x. compare x k) e)
              | no q ↦ cc (compare_self k, upper j (omega arith) lt, ap (λ x. compare k x) e)
            ]

      module _ (k : List ℕ) (s : State) (n : ℕ) where
        pub value_at-contents :
            (fuel : ℕ) (t : State) (r : Option (Result (ℕ × Bool)))
            → longest < fuel
            → Opened s i n t
            → Finds leaf.keys (n_cells (page i)) k r
            → Run
                (λ v u. (v ≡ contents k) × Holding s n u)
                (λ u. Holding s n u)
                (follow (lift_loop r t) (value_at p fuel n))
        unfolding leaf_value
        value_at-contents fuel t (some (ok (idx, true))) h o place =
            Run-follow (λ w u. (w ≡ leaf.values idx) × Holding s n u)
              (λ v u. (v ≡ contents k) × Holding s n u) (λ u. Holding s n u)
              (leaf_value p fuel n idx t) _
              (Run-map (λ w u. (w ≡ leaf.values idx) × Calm t u)
                (λ w u. (w ≡ leaf.values idx) × Holding s n u) (λ u. Calm t u) (λ u. Holding s n u)
                (leaf_value p fuel n idx t) (λ w u a. (a.0, Holding-Calm s t u n (o.0, o.2) a.1))
                (λ u c. Holding-Calm s t u n (o.0, o.2) c)
                (leaf_value-values fuel idx n t h place.0 o.0 o.1))
              (λ w u a. (ap some a.0 ∙ sym (found_contents k idx place), a.1))
        value_at-contents fuel t (some (ok (idx, false))) h o place =
            (sym (missing_contents k idx place), (o.0, o.2))
        value_at-contents fuel t (some (err e)) h o f = elim f [ ]
        value_at-contents fuel t (some panic) h o f = elim f [ ]
        value_at-contents fuel t none h o f = elim f [ ]
