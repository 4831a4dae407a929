-- ===== src/Node/Key.antt =====
-- bytes.Compare: byte slices in lexicographic order.
use frostfire.Prelude.{ℕ, ◌≡◌, refl, List, [], ◌∷◌, ltb, if◌then◌else◌, arith}

pub data Order : Type 0 where
  less equal greater : Order

unfoldable pub compare : List ℕ → List ℕ → Order
compare [] [] = equal
compare [] (y ∷ ys) = less
compare (x ∷ xs) [] = greater
compare (x ∷ xs) (y ∷ ys) = if ltb x y then less else if ltb y x then greater else compare xs ys

pub compare-equal : (xs ys : List ℕ) → compare xs ys ≡ equal → xs ≡ ys
unfolding compare
compare-equal [] [] h = refl
compare-equal [] (y ∷ ys) h = cc
compare-equal (x ∷ xs) [] h = cc
compare-equal (x ∷ xs) (y ∷ ys) h = ground (arith, compare-equal xs ys)

pub compare-flip : (xs ys : List ℕ) → compare xs ys ≡ greater → compare ys xs ≡ less
unfolding compare
compare-flip [] [] h = cc
compare-flip [] (y ∷ ys) h = cc
compare-flip (x ∷ xs) [] h = refl
compare-flip (x ∷ xs) (y ∷ ys) h = ground (arith, compare-flip xs ys)

pub compare_trans :
    (xs ys zs : List ℕ) → compare xs ys ≡ less → compare ys zs ≡ less → compare xs zs ≡ less
unfolding compare
compare_trans [] [] zs h k = cc
compare_trans [] (y ∷ ys) [] h k = cc
compare_trans [] (y ∷ ys) (z ∷ zs) h k = refl
compare_trans (x ∷ xs) [] zs h k = cc
compare_trans (x ∷ xs) (y ∷ ys) [] h k = cc
compare_trans (x ∷ xs) (y ∷ ys) (z ∷ zs) h k = ground (arith, compare_trans xs ys zs)

pub compare_self : (xs : List ℕ) → compare xs xs ≡ equal
unfolding compare
compare_self [] = refl
compare_self (x ∷ xs) = ground (arith, compare_self xs)
