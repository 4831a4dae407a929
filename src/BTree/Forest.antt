-- ===== src/BTree/Forest.antt =====
-- A small tree in a store in memory, for runs: the pages as the code writes them, and what they hold.
use frostfire.Prelude.{
  ℕ, zero, suc, ◌+◌, ◌-◌, ◌≤◌, ◌<◌, ◌≡◌, ◌≢◌, refl, sym, ap, true, false, List, [], ◌∷◌, ◌==◌,
  if◌then◌else◌, arith, Option, none, some, Result, ok, err, panic, key_exists, subst, lt→ltb,
}
use frostfire.Prelude as P
use frostfire.Bytes.{Bytes, write, put_le, get_le, slice, put_bytes}
use frostfire.Node.{
  node_leaf, node_internal, ntype, n_cells, first_cell_offset, header_size, free_space, leaf_key,
  internal_key, leaf_cell_size, internal_cell_size, leaf_key_at, internal_key_at, enter_cell, enter,
  encode_leaf_cell, append_leaf_cell, encode_internal_cell, append_internal_cell, init_node,
  set_n_cells, set_first_cell_offset, set_rightmost_child, rightmost_child, child, cell_offset,
}
use frostfire.Node.Key.{Order, less, equal, greater, compare}
use frostfire.BTree.Memory.{Memory, memory_unpin, memory_pages, empty}
use frostfire.BTree.Lookup.{inline, stored_value}
use frostfire.BTree.Update.{same_bytes}
use frostfire.BTree.Equal.{same_bytes_self, same_bytes_ne}
use frostfire.BTree.Runs.{ReadLaws, one_if}
use frostfire.BTree.Trees.{Contents, IsLeaf, IsInner, Gives, IsTree}

module _ (forest : ℕ → Bytes) where
  abbrev pub forest_laws : ReadLaws memory_pages forest (λ i. Unit {0})
  forest_laws = record {
    Good = λ s. (i : ℕ) → s.pages i ≡ forest i;
    pins = λ s. s.pins;
    get_law = λ i s live good. (good, good i, λ m. refl);
    unpin_law = λ n s good pinned. unpin_pinned n s good pinned;
  }
    where
      unpin_pinned :
          (n : ℕ) (s : Memory)
          → ((i : ℕ) → s.pages i ≡ forest i)
          → 0 < s.pins n
          → let (r, t) = memory_unpin n s in
            (r ≡ ok tt)
            × ((i : ℕ) → t.pages i ≡ forest i)
            × ((m : ℕ) → t.pins m ≡ s.pins m - one_if m n)
      unpin_pinned n s good pinned = rw (P.ne→== (s.pins n) 0 (omega arith)) (refl, good, λ m. refl)

abbrev pub page_or_zeros : Result Bytes → Bytes
page_or_zeros (ok d) = d
page_or_zeros (err e) = λ p. 0
page_or_zeros panic = λ p. 0

-- A tree of height one: a page with one separator over two leaves with one cell each.
abbrev pub leaf_a : Bytes
leaf_a = page_or_zeros (append_leaf_cell (97 ∷ []) (1 ∷ []) 0 (init_node node_leaf (λ p. 0)))

abbrev pub leaf_c : Bytes
leaf_c = page_or_zeros (append_leaf_cell (99 ∷ []) (3 ∷ []) 0 (init_node node_leaf (λ p. 0)))

abbrev pub root_page : Bytes
root_page = page_or_zeros (
    P.◌>>=◌ (append_internal_cell 2 (99 ∷ []) (init_node node_internal (λ p. 0)))
      λ d. ok (set_rightmost_child 3 d))

abbrev pub forest : ℕ → Bytes
forest i = if i == 2 then leaf_a else (if i == 3 then leaf_c else root_page)

abbrev pub planted : Memory
planted = record empty { pages = forest; next = 5 }

-- The one cell of a leaf.
abbrev pub single : List ℕ → List ℕ → Contents
single k v x = if same_bytes x k then some v else none

single-IsLeaf :
    (Live : ℕ → Type 0) (d : Bytes) (k v : List ℕ)
    → ntype d ≡ node_leaf
    → n_cells d ≡ 1
    → leaf_key_at d 0 ≡ ok k
    → stored_value d 0 ≡ ok (inline v)
    → IsLeaf (Gives forest Live 0) d (single k v)
single-IsLeaf Live d k v type count at here = record {
  type = type;
  keys = λ i. k;
  values = λ i. v;
  cells = λ i. inline v;
  sorted = λ i j lt h. absurd (omega (arith, count));
  readable = λ i h. subst (λ j. leaf_key_at d j ≡ ok k) (only i h) at;
  stored = λ i h. subst (λ j. stored_value d j ≡ ok (inline v)) (only i h) here;
  gives = λ i h. refl;
  present = λ i h. rw (same_bytes_self k) refl;
  absent = λ x none. rw (same_bytes_ne x k (λ e. none 0 (omega (arith, count)) (sym e))) refl;
}
  where
    only : (i : ℕ) → i < n_cells d → 0 ≡ i
    only i h = omega (arith, count)

leaf_a-IsLeaf :
    (Live : ℕ → Type 0) → IsLeaf (Gives forest Live 0) leaf_a (single (97 ∷ []) (1 ∷ []))
unfolding leaf_key_at leaf_key append_leaf_cell leaf_cell_size free_space header_size ntype n_cells
    first_cell_offset init_node set_n_cells set_first_cell_offset encode_leaf_cell enter_cell enter
    write put_le get_le slice put_bytes stored_value cell_offset
leaf_a-IsLeaf Live = single-IsLeaf Live leaf_a (97 ∷ []) (1 ∷ []) refl refl refl refl

leaf_c-IsLeaf :
    (Live : ℕ → Type 0) → IsLeaf (Gives forest Live 0) leaf_c (single (99 ∷ []) (3 ∷ []))
unfolding leaf_key_at leaf_key append_leaf_cell leaf_cell_size free_space header_size ntype n_cells
    first_cell_offset init_node set_n_cells set_first_cell_offset encode_leaf_cell enter_cell enter
    write put_le get_le slice put_bytes stored_value cell_offset
leaf_c-IsLeaf Live = single-IsLeaf Live leaf_c (99 ∷ []) (3 ∷ []) refl refl refl refl

abbrev pub part : ℕ → Contents
part i = if i == 0 then single (97 ∷ []) (1 ∷ []) else single (99 ∷ []) (3 ∷ [])

abbrev pub side : Order → Contents
side less = part 0
side equal = part 1
side greater = part 1

-- Below the separator the first leaf answers, from it on the second.
abbrev pub both : Contents
both x = side (compare x (99 ∷ [])) x

root_count : n_cells root_page ≡ 1
unfolding internal_key_at internal_key append_internal_cell internal_cell_size free_space
    header_size ntype n_cells first_cell_offset init_node set_n_cells set_first_cell_offset
    encode_internal_cell enter_cell enter set_rightmost_child write put_le get_le slice put_bytes
    cell_offset
root_count = refl

root_page-IsInner :
    (Live : ℕ → Type 0) → Live 2 → Live 3 → IsInner (IsTree forest Live 0 0) root_page both
unfolding internal_key_at internal_key append_internal_cell internal_cell_size free_space
    header_size ntype n_cells first_cell_offset init_node set_n_cells set_first_cell_offset
    encode_internal_cell enter_cell enter set_rightmost_child rightmost_child child write put_le
    get_le slice put_bytes cell_offset
root_page-IsInner Live live_a live_c = record {
  type = refl;
  keys = λ i. 99 ∷ [];
  children = λ i. if i == 0 then 2 else 3;
  parts = part;
  sorted = λ i j lt h. absurd (omega (arith, root_count));
  readable = λ i h. first_key i h;
  linked = λ i h. links i h;
  below = λ i h. leaves i h;
  divided = λ k i h low high. apart k i h low high;
}
  where
    first_key : (i : ℕ) → i < 1 → internal_key_at root_page i ≡ ok (99 ∷ [])
    first_key zero h = refl
    first_key (suc i) h = absurd (omega arith)

    links : (i : ℕ) → i ≤ 1 → child root_page i ≡ ok (if i == 0 then 2 else 3)
    links zero h = refl
    links (suc zero) h = refl
    links (suc (suc i)) h = absurd (omega arith)

    leaves : (i : ℕ) → i ≤ 1 → IsTree forest Live 0 0 (if i == 0 then 2 else 3) (part i)
    leaves zero h = ((λ e. absurd (omega arith)), live_a, leaf_a-IsLeaf Live)
    leaves (suc zero) h = ((λ e. absurd (omega arith)), live_c, leaf_c-IsLeaf Live)
    leaves (suc (suc i)) h = absurd (omega arith)

    apart :
        (k : List ℕ) (i : ℕ)
        → i ≤ 1
        → ((j : ℕ) → j < i → compare k (99 ∷ []) ≢ less)
        → ((j : ℕ) → i ≤ j → j < 1 → compare k (99 ∷ []) ≡ less)
        → both k ≡ part i k
    apart k zero h low high = rw (high 0 (omega arith) (omega arith)) refl
    apart k (suc zero) h low high =
        elim (compare k (99 ∷ [])) as (λ o. compare k (99 ∷ []) ≡ o → side o k ≡ part 1 k) [
          | less ↦ λ e. absurd (low 0 (omega arith) e)
          | equal ↦ λ e. refl
          | greater ↦ λ e. refl
        ]
          refl
    apart k (suc (suc i)) h low high = absurd (omega arith)

pub forest-IsTree : (Live : ℕ → Type 0) → Live 2 → Live 3 → Live 4 → IsTree forest Live 0 1 4 both
forest-IsTree Live live_a live_c live =
    ((λ e. absurd (omega arith)), live, root_page-IsInner Live live_a live_c)

-- The tree in a store where every page is live.
pub planted-IsTree : IsTree forest (λ i. Unit {0}) 0 1 4 both
planted-IsTree = forest-IsTree (λ i. Unit {0}) tt tt tt
