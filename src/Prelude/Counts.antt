-- ===== src/Prelude/Counts.antt =====
-- How often a number occurs in a list. Statements on several lists at once, such as "in none of
-- them twice", are sums of counts, which `omega` reads.
use Prim.Native.Nat.{ℕ, ◌+◌, ◌-◌, ◌≤◌, ◌<◌}
use mathlib.Core.Path.{◌≡◌, refl}
use mathlib.Core.List.{List, [], ◌∷◌, ◌++◌}
use mathlib.Core.Option.{Option, none, some}
use native.Mathlib.Omega.{arith}
use frostfire.Prelude.Tests.{◌==◌, if◌then◌else◌}
use frostfire.Prelude.Lists.{All}

abbrev pub count : (id : ℕ) → List ℕ → ℕ
count id [] = 0
count id (other ∷ rest) = count id rest + (if other == id then 1 else 0)

pub count-append :
    (id : ℕ) (front back : List ℕ) → count id (front ++ back) ≡ count id back + count id front
count-append id [] back = omega arith
count-append id (other ∷ front) back = ground (arith, count-append id front back)

-- Without the first occurrence of `a`.
unfoldable pub remove_first : ℕ → List ℕ → List ℕ
remove_first a [] = []
remove_first a (x ∷ xs) = if x == a then xs else x ∷ remove_first a xs

pub count-remove_first :
    (a b : ℕ) (xs : List ℕ) → count b (remove_first a xs) ≡ count b xs - (if a == b then 1 else 0)
unfolding remove_first
count-remove_first a b [] = ground arith
count-remove_first a b (x ∷ xs) = ground (arith, count-remove_first a b xs)

abbrev add_front : ℕ → Option (List ℕ × ℕ) → Option (List ℕ × ℕ)
add_front x none = none
add_front x (some (rest, last)) = some (x ∷ rest, last)

-- The list without its last element, and that element.
unfoldable pub split_last : List ℕ → Option (List ℕ × ℕ)
split_last [] = none
split_last (x ∷ []) = some ([], x)
split_last (x ∷ y ∷ ys) = add_front x (split_last (y ∷ ys))

pub split_last_lem :
    (xs : List ℕ) {rest : List ℕ} {last : ℕ}
    → split_last xs ≡ some (rest, last)
    → xs ≡ rest ++ last ∷ []
unfolding split_last
split_last_lem [] h = cc
split_last_lem (x ∷ []) h = ground arith
split_last_lem (x ∷ y ∷ ys) {rest} {last} h =
    go (split_last (y ∷ ys)) (λ r l e. split_last_lem (y ∷ ys) {rest = r} {last = l} e) h
  where
    go :
        (o : Option (List ℕ × ℕ))
        → ((r : List ℕ) (l : ℕ) → o ≡ some (r, l) → y ∷ ys ≡ r ++ l ∷ [])
        → add_front x o ≡ some (rest, last)
        → x ∷ y ∷ ys ≡ rest ++ last ∷ []
    go none ih e = cc
    go (some (r, l)) ih e = let i = ih r l refl in ground arith

pub All-append {κ} : (P : ℕ → Type κ) (xs ys : List ℕ) → All P xs → All P ys → All P (xs ++ ys)
All-append P [] ys p q = q
All-append P (x ∷ xs) ys p q = (p.0, All-append P xs ys p.1 q)

pub All-remove_first {κ} :
    (P : ℕ → Type κ) (a : ℕ) (xs : List ℕ) → All P xs → All P (remove_first a xs)
unfolding remove_first
All-remove_first P a [] p = p
All-remove_first P a (x ∷ xs) p = ground (arith, All-remove_first P a xs p.1)

-- A number outside the bound of all elements does not occur.
pub count_above : (n a : ℕ) (xs : List ℕ) → All (λ x. x < n) xs → n ≤ a → count a xs ≡ 0
count_above n a [] p h = refl
count_above n a (x ∷ xs) p h = ground (arith, count_above n a xs)

pub count_below : (n a : ℕ) (xs : List ℕ) → All (λ x. n ≤ x) xs → a < n → count a xs ≡ 0
count_below n a [] p h = refl
count_below n a (x ∷ xs) p h = ground (arith, count_below n a xs)

pub All-split {κ} : (P : ℕ → Type κ) (xs ys : List ℕ) → All P (xs ++ ys) → All P xs × All P ys
All-split P [] ys p = (tt, p)
All-split P (x ∷ xs) ys p = let r = All-split P xs ys p.1 in ((p.0, r.0), r.1)
