-- ===== src/BTree/Visits.antt =====
-- A page is asked for, used and let go: what such a visit leaves unchanged.
use frostfire.Prelude.{ℕ, ◌≡◌, ◌∙◌, List, Option, none, some, Result, ok, err, panic}
use frostfire.Bytes.{Bytes}
use frostfire.Node.{n_cells, child, search_internal}
use frostfire.Node.Search.{Descends, search_internal-Descends}
use frostfire.BTree.Pages.{Pages}
use frostfire.BTree.Action.{Action, follow, lift, lift_loop, finally, ◌>>=◌}
use frostfire.BTree.Nodes.{bytes, release, get_node}
use frostfire.BTree.Runs.{Run-follow, Run-map, Run-finally, ReadLaws}
use frostfire.BTree.Trees.{Contents, IsInner, IsTree}
use frostfire.BTree.Values.{Calm, Holding, Opened, Leaves, get-Opened, release-Calm, Calm-trans}
use frostfire.BTree.Finding.{IsTree-Live}

module _ {p : Pages} {page : ℕ → Bytes} {Live : ℕ → Type 0} (laws : ReadLaws p page Live) where
  open p use {State, get, unpin, bytes_of}
  open laws use {Good, pins, get_law, unpin_law}

  pub Leaves-trans :
      {A : Type 0} (Fin : A → Type 0) (s t : State) (r : Option (Result A × State))
      → Calm laws s t
      → Leaves laws Fin t r
      → Leaves laws Fin s r
  Leaves-trans Fin s t r c h =
      Run-map (λ a u. Fin a × Calm laws t u) (λ a u. Fin a × Calm laws s u) (λ u. Calm laws t u)
        (λ u. Calm laws s u) r (λ a u x. (x.0, Calm-trans laws s t u c x.1))
        (λ u b. Calm-trans laws s t u c b) h

  pub Leaves-follow :
      {A B : Type 0} (Mid : A → Type 0) (Fin : B → Type 0) (s : State)
      (r : Option (Result A × State)) (k : A → Action State B)
      → Leaves laws Mid s r
      → ((a : A) (t : State) → Mid a → Calm laws s t → Leaves laws Fin t (k a t))
      → Leaves laws Fin s (follow r k)
  Leaves-follow Mid Fin s r k h next =
      Run-follow (λ a t. Mid a × Calm laws s t) (λ b u. Fin b × Calm laws s u) (λ u. Calm laws s u)
        r k h (λ a t x. Leaves-trans Fin s t (k a t) x.1 (next a t x.0 x.1))

  -- A page is asked for, used, and let go.
  pub Leaves-visit :
      {A B : Type 0} (Mid : A → Type 0) (Fin : B → Type 0) (i : ℕ) (s : State)
      (visit : ℕ → Action State A) (after : A → Action State B)
      → Live i
      → Good s
      → ((n : ℕ) (t : State) → Good t → bytes_of n t ≡ page i → Leaves laws Mid t (visit n t))
      → ((a : A) (t : State) → Mid a → Good t → Leaves laws Fin t (after a t))
      → Leaves laws Fin s ((get_node p i >>= λ n. finally (visit n) (release p n) >>= after) s)
  Leaves-visit Mid Fin i s visit after live good visited next =
      Run-follow (λ n t. Opened laws s i n t) (λ b u. Fin b × Calm laws s u) (λ u. Calm laws s u)
        (some (get i s)) _ (get-Opened laws i s live good)
        λ n t o.
          Leaves-follow Mid Fin s (finally (visit n) (release p n) t) after
            (Run-finally (λ a u. Mid a × Holding laws s n u) (λ a u. Mid a × Calm laws s u)
              (λ u. Holding laws s n u) (λ u. Calm laws s u) (visit n) (release p n) t
              (Run-map (λ a u. Mid a × Calm laws t u) (λ a u. Mid a × Holding laws s n u)
                (λ u. Calm laws t u) (λ u. Holding laws s n u) (visit n t)
                (λ a u x. (x.0, (x.1.0, λ m. x.1.1 m ∙ o.2 m))) (λ u x. (x.0, λ m. x.1 m ∙ o.2 m))
                (visited n t o.0 o.1))
              (λ a u x.
                Run-map (λ (y : Unit {0}) w. Calm laws s w)
                  (λ (y : Unit {0}) w. Mid a × Calm laws s w) (λ w. Calm laws s w)
                  (λ w. Calm laws s w) (release p n u) (λ y w c. (x.0, c)) (λ w c. c)
                  (release-Calm laws n s u x.1))
              (λ u x. release-Calm laws n s u x))
            λ a u mid calm. next a u mid calm.0

  -- The way down from an internal node to the child for the key.
  pub Leaves-descend :
      {A B : Type 0} (Mid : A → Type 0) (Fin : B → Type 0) (longest h : ℕ) (contents : Contents)
      (i n : ℕ) (k : List ℕ) (t : State) (visit : ℕ → Action State A)
      (after : ℕ → ℕ → A → Action State B)
      → IsInner (IsTree page Live longest h) (page i) contents
      → Good t
      → bytes_of n t ≡ page i
      → ((c m : ℕ) (part : Contents) (u : State)
          → IsTree page Live longest h c part
          → contents k ≡ part k
          → Good u
          → bytes_of m u ≡ page c
          → Leaves laws Mid u (visit m u))
      → ((idx c : ℕ) (a : A) (u : State) → Mid a → Good u → Leaves laws Fin u (after idx c a u))
      → Leaves laws Fin t (
          (bytes p n >>= λ d. lift_loop (search_internal d k) >>= λ idx. lift (child d idx) >>= λ c.
          get_node p c >>= λ m. finally (visit m) (release p m) >>= after idx c)
            t)
  Leaves-descend Mid Fin longest h contents i n k t visit after inner good e visited next = rw e (
      go (search_internal (page i) k)
        (search_internal-Descends (page i) inner.keys k inner.sorted inner.readable))
    where
      go :
          (r : Option (Result ℕ))
          → Descends inner.keys (n_cells (page i)) k r
          → Leaves laws Fin t (
              follow (lift_loop r t) λ idx. lift (child (page i) idx) >>= λ c.
              get_node p c >>= λ m. finally (visit m) (release p m) >>= after idx c)
      go (some (ok idx)) (le, low, high) =
          let below : IsTree page Live longest h (inner.children idx) (inner.parts idx) =
            inner.below idx le in
          rw (inner.linked idx le) (
            Leaves-visit Mid Fin (inner.children idx) t visit (after idx (inner.children idx))
              (IsTree-Live laws longest h (inner.children idx) (inner.parts idx) below).1 good
              (λ m u good' e'.
                visited (inner.children idx) m (inner.parts idx) u below
                  (inner.divided k idx le low high) good' e')
              (λ a u mid good'. next idx (inner.children idx) a u mid good'))
      go (some (err x)) d = elim d [ ]
      go (some panic) d = elim d [ ]
      go none d = elim d [ ]
