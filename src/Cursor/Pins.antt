-- ===== src/Cursor/Pins.antt =====
-- The pins that a cursor holds: one for each frame on its stack, which Close gives back.
use frostfire.Prelude.{
  ℕ, zero, suc, ◌+◌, ◌-◌, ◌<◌, ◌≡◌, refl, ◌∙◌, Bool, true, false, List, [], ◌∷◌, map, reverse,
  Option, none, some, Result, ok, err, panic, ◌==◌, if◌then◌else◌, arith,
}
use mathlib.Core.List.{reverse_aux}
use frostfire.Bytes.{Bytes}
use frostfire.Node.{node_leaf, ntype, child}
use frostfire.BTree.Pages.{Pages}
use frostfire.BTree.Action.{Action, pure, lift, attempt, ◌>>=◌}
use frostfire.BTree.Nodes.{bytes, release, get_node}
use frostfire.BTree.Lookup.{for_each}
use frostfire.BTree.Runs.{Run, Run-follow, Got, ReadLaws, one_if}
use frostfire.BTree.Trees.{Contents, IsTree}
use frostfire.BTree.Values.{Calm}
use frostfire.Cursor.Defs.{Stack, close, descend_leftmost}

-- How often a frame stands in a list of frames.
abbrev count : ℕ → List ℕ → ℕ
count m [] = 0
count m (n ∷ ns) = one_if m n + count m ns

abbrev frames : Stack → List ℕ
frames stack = map (λ (f : ℕ × ℕ). f.0) stack

count-reverse_aux :
    (m : ℕ) (xs ys : Stack)
    → count m (frames (reverse_aux xs ys)) ≡ count m (frames xs) + count m (frames ys)
count-reverse_aux m [] ys = omega arith
count-reverse_aux m (x ∷ xs) ys = omega (arith, count-reverse_aux m xs (x ∷ ys))

module _ {p : Pages} {page : ℕ → Bytes} {Live : ℕ → Type 0} (laws : ReadLaws p page Live)
    (s : p.State) where
  open p use {State, get, unpin, bytes_of}
  open laws use {Good, pins, get_law, unpin_law}

  -- The frames are pinned as often as they are listed, beyond the pins of `s`.
  abbrev Owns : List ℕ → State → Type 0
  Owns ns t = Good t × ((m : ℕ) → pins t m ≡ pins s m + count m ns)

  release_all-Owns :
      (ns : List ℕ) (t : State)
      → Owns ns t
      → Run (λ (x : Unit {0}) u. Calm laws s u) (λ u. ⊥) (for_each p (release p) ns t)
  release_all-Owns [] t (good, more) = (good, λ m. omega (arith, more m))
  release_all-Owns (n ∷ ns) t (good, more) =
      Run-follow (λ (x : Unit {0}) u. Owns ns u) (λ (x : Unit {0}) u. Calm laws s u) (λ u. ⊥)
        (release p n t) (λ done. for_each p (release p) ns)
        (go (unpin n t) (unpin_law n t good (ground (arith, more n))))
        λ x u owns. release_all-Owns ns u owns
    where
      go :
          (r : Result (Unit {0}) × State)
          → (r.0 ≡ ok tt) × Good r.1 × ((m : ℕ) → pins r.1 m ≡ pins t m - one_if m n)
          → Run (λ (x : Unit {0}) u. Owns ns u) (λ u. ⊥) (some r)
      go (ok x, u) (e, good', fewer) = (good', λ m. omega (arith, fewer m, more m))
      go (err x, u) (e, good', fewer) = cc
      go (panic, u) (e, good', fewer) = cc

  -- A page that was asked for, or was not to be had.
  abbrev Entered : ℕ → State → Option ℕ → State → Type 0
  Entered i t (some n) u =
      Good u × (bytes_of n u ≡ page i) × ((m : ℕ) → pins u m ≡ pins t m + one_if m n)
  Entered i t none u = Good u × ((m : ℕ) → pins u m ≡ pins t m)

  attempt-Entered :
      (i : ℕ) (t : State)
      → Live i
      → Good t
      → Run (λ found u. Entered i t found u) (λ u. ⊥) (attempt (get_node p i) t)
  attempt-Entered i t live good = go (get i t) (get_law i t live good)
    where
      go :
          (r : Result ℕ × State)
          → Got p page Good pins t i r
          → Run (λ found u. Entered i t found u) (λ u. ⊥) (attempt (λ u. some r) t)
      go (ok n, u) h = h
      go (err e, u) h = h
      go (panic, u) h = h

  descend_leftmost-Owns :
      (longest h fuel i : ℕ) (contents : Contents) (stack : Stack) (t : State)
      → IsTree page Live longest h i contents
      → h < fuel
      → Owns (frames stack) t
      → Run
          (λ (r : Stack × Bool) u. Owns (frames r.0) u)
          (λ u. ⊥)
          (descend_leftmost p fuel i stack t)
  unfolding descend_leftmost
  descend_leftmost-Owns longest h zero i contents stack t tree enough owns = elim enough [ ]
  descend_leftmost-Owns longest zero (suc fuel) i contents stack t (nonzero, live, leaf) enough
        (good, more) =
      Run-follow (λ found u. Entered i t found u) (λ (r : Stack × Bool) u. Owns (frames r.0) u)
        (λ u. ⊥) (attempt (get_node p i) t) _ (attempt-Entered i t live good)
        λ found u h.
          elim found
              as (λ found.
                Entered i t found u
                → Run (λ (r : Stack × Bool) u. Owns (frames r.0) u) (λ u. ⊥)
                    (elim found as (λ x. Action State (Stack × Bool)) [
                      | none ↦ pure (stack, false)
                      | some n ↦ bytes p n >>= λ d.
                          if ntype d == node_leaf
                          then pure ((n, 0) ∷ stack, true)
                          else (lift (child d 0) >>= λ c.
                              descend_leftmost p fuel c ((n, 0) ∷ stack))
                    ]
                      u)) [
                        | none ↦ λ o. (o.0, λ m. o.1 m ∙ more m)
                        | some n ↦ λ o. rw (o.1, leaf.type) (o.0, λ m. omega (arith, o.2 m, more m))
                      ]
            h
  descend_leftmost-Owns longest (suc h) (suc fuel) i contents stack t (nonzero, live, inner) enough
        (good, more) =
      Run-follow (λ found u. Entered i t found u) (λ (r : Stack × Bool) u. Owns (frames r.0) u)
        (λ u. ⊥) (attempt (get_node p i) t) _ (attempt-Entered i t live good)
        λ found u h'.
          elim found
              as (λ found.
                Entered i t found u
                → Run (λ (r : Stack × Bool) u. Owns (frames r.0) u) (λ u. ⊥)
                    (elim found as (λ x. Action State (Stack × Bool)) [
                      | none ↦ pure (stack, false)
                      | some n ↦ bytes p n >>= λ d.
                          if ntype d == node_leaf
                          then pure ((n, 0) ∷ stack, true)
                          else (lift (child d 0) >>= λ c.
                              descend_leftmost p fuel c ((n, 0) ∷ stack))
                    ]
                      u)) [
                        | none ↦ λ o. (o.0, λ m. o.1 m ∙ more m)
                        | some n ↦ λ o.
                            rw (o.1, inner.type, inner.linked 0 (omega arith))
                              (descend_leftmost-Owns longest h fuel (inner.children 0)
                                (inner.parts 0) ((n, 0) ∷ stack) u (inner.below 0 (omega arith))
                                (omega arith) (o.0, λ m. omega (arith, o.2 m, more m)))
                      ]
            h'

  close-Calm :
      (stack : Stack) (t : State)
      → Owns (frames stack) t
      → Run (λ stack' u. (stack' ≡ []) × Calm laws s u) (λ u. ⊥) (close p stack t)
  unfolding close
  close-Calm stack t (good, more) =
      Run-follow (λ (x : Unit {0}) u. Calm laws s u) (λ stack' u. (stack' ≡ []) × Calm laws s u)
        (λ u. ⊥) (for_each p (release p) (frames (reverse stack)) t) _
        (release_all-Owns (frames (reverse stack)) t
          (good, λ m. omega (arith, more m, count-reverse_aux m stack [])))
        λ x u calm. (refl, calm)

  -- A cursor that walks down to the leftmost leaf of a tree of pages, as far as the store hands out
  -- its pages, and is closed then, has given back every pin and changed no page; neither the walk nor
  -- Close panics or fails, and the walk ends within the tree's height.
  pub descend_leftmost-close :
      (longest h fuel i : ℕ) (contents : Contents)
      → IsTree page Live longest h i contents
      → h < fuel
      → Good s
      → Run
          (λ stack u. (stack ≡ []) × Calm laws s u)
          (λ u. ⊥)
          ((descend_leftmost p fuel i [] >>= λ (stack, complete). close p stack) s)
  descend_leftmost-close longest h fuel i contents tree enough good =
      Run-follow (λ (r : Stack × Bool) u. Owns (frames r.0) u)
        (λ stack u. (stack ≡ []) × Calm laws s u) (λ u. ⊥) (descend_leftmost p fuel i [] s) _
        (descend_leftmost-Owns longest h fuel i contents [] s tree enough (good, λ m. omega arith))
        λ r u owns. close-Calm r.0 u owns
