-- ===== src/Node/Search.antt =====
-- searchLeaf and searchInternal find the place of a key on a page whose keys can be read and stand
-- in order, and their loops end.
use frostfire.Prelude.{
  ℕ, zero, suc, ◌+◌, ◌-◌, ◌/◌, ◌≤◌, ◌<◌, ◌≡◌, refl, subst, sym, Bool, true, false, List, arith,
  Option, some, none, Result, ok, err, panic, dec_lt, lt→ltb, le→ltb, ◌≢◌,
}
use frostfire.Bytes.{Bytes}
use frostfire.Node.Key.{
  Order, less, equal, greater, compare, compare-equal, compare-flip, compare_trans,
}
use frostfire.Node.Defs.{
  n_cells, leaf_key_at, internal_key_at, search_leaf_loop, search_leaf, search_internal_loop,
  search_internal,
}

-- Strictly ascending keys.
abbrev pub IsSorted : (ℕ → List ℕ) → ℕ → Type 0
IsSorted keys n = (i j : ℕ) → i < j → j < n → compare (keys i) (keys j) ≡ less

-- The keys before `lo` are below `key`, those from `hi` on are above it.
record Bracket (keys : ℕ → List ℕ) (n : ℕ) (key : List ℕ) (lo hi : ℕ) : Type 0 where
  ordered : lo ≤ hi
  inside : hi ≤ n
  below : (i : ℕ) → i < lo → compare (keys i) key ≡ less
  above : (i : ℕ) → hi ≤ i → i < n → compare key (keys i) ≡ less

module _ {keys : ℕ → List ℕ} {n : ℕ} (sorted : IsSorted keys n) {key : List ℕ} {lo hi mid : ℕ}
    (b : Bracket keys n key lo hi) where
  Bracket-upper :
      mid < hi → lo ≤ mid → compare (keys mid) key ≡ less → Bracket keys n key (mid + 1) hi
  Bracket-upper h l c = record {
    ordered = omega (arith, b.inside);
    inside = b.inside;
    below = λ i p. elim (dec_lt i mid) [
      | yes q ↦ compare_trans (keys i) (keys mid) key (sorted i mid q (omega (arith, b.inside))) c
      | no q ↦ let e : i ≡ mid = omega arith in rw e c
    ];
    above = b.above;
  }

  Bracket-lower : mid < hi → lo ≤ mid → compare key (keys mid) ≡ less → Bracket keys n key lo mid
  Bracket-lower h l c = record {
    ordered = l;
    inside = omega (arith, b.inside);
    below = b.below;
    above = λ i p q. elim (dec_lt mid i) [
      | yes r ↦ compare_trans key (keys mid) (keys i) c (sorted mid i r q)
      | no r ↦ let e : i ≡ mid = omega arith in rw e c
    ];
  }

-- The same for the separators of an internal page, where a separator equal to the key stands left.
record Split (keys : ℕ → List ℕ) (n : ℕ) (key : List ℕ) (lo hi : ℕ) : Type 0 where
  ordered : lo ≤ hi
  inside : hi ≤ n
  below : (i : ℕ) → i < lo → compare key (keys i) ≢ less
  above : (i : ℕ) → hi ≤ i → i < n → compare key (keys i) ≡ less

module _ {keys : ℕ → List ℕ} {n : ℕ} (sorted : IsSorted keys n) {key : List ℕ} {lo hi mid : ℕ}
    (b : Split keys n key lo hi) where
  Split-upper : mid < hi → lo ≤ mid → compare key (keys mid) ≢ less → Split keys n key (mid + 1) hi
  Split-upper h l c = record {
    ordered = omega (arith, b.inside);
    inside = b.inside;
    below = λ i p e. elim (dec_lt i mid) [
      | yes q ↦
          c (compare_trans key (keys i) (keys mid) e (sorted i mid q (omega (arith, b.inside))))
      | no q ↦
          let same : i ≡ mid = omega arith in c (subst (λ k. compare key (keys k) ≡ less) same e)
    ];
    above = b.above;
  }

  Split-lower : mid < hi → lo ≤ mid → compare key (keys mid) ≡ less → Split keys n key lo mid
  Split-lower h l c = record {
    ordered = l;
    inside = omega (arith, b.inside);
    below = b.below;
    above = λ i p q. elim (dec_lt mid i) [
      | yes r ↦ compare_trans key (keys mid) (keys i) c (sorted mid i r q)
      | no r ↦ let e : i ≡ mid = omega arith in rw e c
    ];
  }

-- A place among `n` keys: they are below `key` before it, and above `key` from it on but for the
-- one at the place itself, if `found`.
abbrev pub Place : (ℕ → List ℕ) → ℕ → List ℕ → ℕ → Bool → Type 0
Place keys n key idx true = (idx < n) × (keys idx ≡ key)
Place keys n key idx false =
    (idx ≤ n)
    × ((i : ℕ) → i < idx → compare (keys i) key ≡ less)
    × ((i : ℕ) → idx ≤ i → i < n → compare key (keys i) ≡ less)

-- The search returns normally, at a place of the key.
abbrev pub Finds : (ℕ → List ℕ) → ℕ → List ℕ → Option (Result (ℕ × Bool)) → Type 0
Finds keys n key (some (ok (idx, found))) = Place keys n key idx found
Finds keys n key (some (err e)) = ⊥
Finds keys n key (some panic) = ⊥
Finds keys n key none = ⊥

module _ (d : Bytes) (keys : ℕ → List ℕ) (n : ℕ) (sorted : IsSorted keys n)
    (readable : (i : ℕ) → i < n → leaf_key_at d i ≡ ok (keys i)) where
  search_leaf_loop-Finds :
      (fuel : ℕ) (key : List ℕ) (lo hi : ℕ)
      → Bracket keys n key lo hi
      → hi - lo < fuel
      → Finds keys n key (search_leaf_loop fuel d key lo hi)
  unfolding search_leaf_loop
  search_leaf_loop-Finds zero key lo hi b h = elim h [ ]
  search_leaf_loop-Finds (suc fuel) key lo hi b h = elim (dec_lt lo hi) [
    | no p ↦ rw (le→ltb lo hi (omega arith)) (
        let e : lo ≡ hi = omega (arith, b.ordered) in
        (omega (arith, b.inside), b.below, (λ i q r. b.above i (omega arith) r)))
    | yes p ↦
        rw (lt→ltb lo hi p, readable (lo + (hi - lo) / 2) (omega (arith, b.inside)))
          (go (omega (arith, b.inside)) (compare key (keys (lo + (hi - lo) / 2))) refl
            (λ c.
              search_leaf_loop-Finds fuel key lo (lo + (hi - lo) / 2)
                (Bracket-lower sorted b (omega arith) (omega arith) c) (omega arith))
            (λ c.
              search_leaf_loop-Finds fuel key (lo + (hi - lo) / 2 + 1) hi
                (Bracket-upper sorted b (omega arith) (omega arith) c) (omega arith)))
  ]
    where
      mid : ℕ
      mid = lo + (hi - lo) / 2

      go :
          mid < n
          → (o : Order) → compare key (keys mid) ≡ o
          → (compare key (keys mid) ≡ less → Finds keys n key (search_leaf_loop fuel d key lo mid))
          → (compare (keys mid) key ≡ less
              → Finds keys n key (search_leaf_loop fuel d key (mid + 1) hi))
          → Finds keys n key (elim o [
            | equal ↦ some (ok (mid, true))
            | less ↦ search_leaf_loop fuel d key lo mid
            | greater ↦ search_leaf_loop fuel d key (mid + 1) hi
          ])
      go small less e l u = l e
      go small equal e l u = (small, sym (compare-equal key (keys mid) e))
      go small greater e l u = u (compare-flip key (keys mid) e)

-- On a leaf whose keys are readable and strictly ascending searchLeaf ends without a panic. If it
-- reports the key as found, the cell at the index has it; if not, every cell before the index has
-- a smaller key and every other cell a greater one.
pub search_leaf-Finds :
    (d : Bytes) (keys : ℕ → List ℕ) (key : List ℕ)
    → IsSorted keys (n_cells d)
    → ((i : ℕ) → i < n_cells d → leaf_key_at d i ≡ ok (keys i))
    → Finds keys (n_cells d) key (search_leaf d key)
unfolding search_leaf
search_leaf-Finds d keys key sorted readable =
    search_leaf_loop-Finds d keys (n_cells d) sorted readable (suc (n_cells d)) key 0 (n_cells d)
      (record {
        ordered = omega arith;
        inside = omega arith;
        below = λ i h. elim h [ ];
        above = λ i h k. absurd (omega arith);
      })
      (omega arith)

-- The search of an internal page returns the number of separators that are not above the key.
abbrev pub Descends : (ℕ → List ℕ) → ℕ → List ℕ → Option (Result ℕ) → Type 0
Descends keys n key (some (ok idx)) =
    (idx ≤ n)
    × ((i : ℕ) → i < idx → compare key (keys i) ≢ less)
    × ((i : ℕ) → idx ≤ i → i < n → compare key (keys i) ≡ less)
Descends keys n key (some (err e)) = ⊥
Descends keys n key (some panic) = ⊥
Descends keys n key none = ⊥

module _ (d : Bytes) (keys : ℕ → List ℕ) (n : ℕ) (sorted : IsSorted keys n)
    (readable : (i : ℕ) → i < n → internal_key_at d i ≡ ok (keys i)) where
  search_internal_loop-Descends :
      (fuel : ℕ) (key : List ℕ) (lo hi : ℕ)
      → Split keys n key lo hi
      → hi - lo < fuel
      → Descends keys n key (search_internal_loop fuel d key lo hi)
  unfolding search_internal_loop
  search_internal_loop-Descends zero key lo hi b h = elim h [ ]
  search_internal_loop-Descends (suc fuel) key lo hi b h = elim (dec_lt lo hi) [
    | no p ↦ rw (le→ltb lo hi (omega arith)) (
        let e : lo ≡ hi = omega (arith, b.ordered) in
        (omega (arith, b.inside), b.below, (λ i q r. b.above i (omega arith) r)))
    | yes p ↦
        rw (lt→ltb lo hi p, readable (lo + (hi - lo) / 2) (omega (arith, b.inside)))
          (go (compare key (keys (lo + (hi - lo) / 2))) refl
            (λ c.
              search_internal_loop-Descends fuel key lo (lo + (hi - lo) / 2)
                (Split-lower sorted b (omega arith) (omega arith) c) (omega arith))
            (λ c.
              search_internal_loop-Descends fuel key (lo + (hi - lo) / 2 + 1) hi
                (Split-upper sorted b (omega arith) (omega arith) c) (omega arith)))
  ]
    where
      mid : ℕ
      mid = lo + (hi - lo) / 2

      go :
          (o : Order)
          → compare key (keys mid) ≡ o
          → (compare key (keys mid) ≡ less
              → Descends keys n key (search_internal_loop fuel d key lo mid))
          → (compare key (keys mid) ≢ less
              → Descends keys n key (search_internal_loop fuel d key (mid + 1) hi))
          → Descends keys n key (elim o [
            | less ↦ search_internal_loop fuel d key lo mid
            | equal ↦ search_internal_loop fuel d key (mid + 1) hi
            | greater ↦ search_internal_loop fuel d key (mid + 1) hi
          ])
      go less e l u = l e
      go equal e l u = u (λ c. cc)
      go greater e l u = u (λ c. cc)

-- On an internal page whose separators are readable and strictly ascending searchInternal ends
-- without a panic, at the child to the right of all separators that are not above the key.
pub search_internal-Descends :
    (d : Bytes) (keys : ℕ → List ℕ) (key : List ℕ)
    → IsSorted keys (n_cells d)
    → ((i : ℕ) → i < n_cells d → internal_key_at d i ≡ ok (keys i))
    → Descends keys (n_cells d) key (search_internal d key)
unfolding search_internal
search_internal-Descends d keys key sorted readable =
    search_internal_loop-Descends d keys (n_cells d) sorted readable (suc (n_cells d)) key 0
      (n_cells d)
      (record {
        ordered = omega arith;
        inside = omega arith;
        below = λ i h. elim h [ ];
        above = λ i h k. absurd (omega arith);
      })
      (omega arith)
