-- ===== src/BTree/Trees.antt =====
-- What a tree of pages holds: a function from keys to values, described page by page.
use frostfire.Prelude.{
  ℕ, zero, suc, ◌-◌, ◌≤◌, ◌<◌, ◌≡◌, ◌≢◌, List, [], ◌∷◌, ◌++◌, min, length, replicate, Option, none,
  some, ok,
}
use frostfire.Bytes.{Bytes, slice}
use frostfire.Node.{node_leaf, node_internal, ntype, n_cells, child, leaf_key_at, internal_key_at}
use frostfire.Node.Key.{compare, less}
use frostfire.Node.Search.{IsSorted}
use frostfire.BTree.Overflow.{overflow_chunk_size, overflow_header_size, next_of}
use frostfire.BTree.Lookup.{Stored, inline, chained, stored_value}

abbrev pub Contents : Type 0
Contents = List ℕ → Option (List ℕ)

-- The values of a leaf, and what is known of a key that is not there.
pub record IsLeaf (Gives : Stored → List ℕ → Type 0) (d : Bytes) (contents : Contents)
    : Type 0 where
  pub type : ntype d ≡ node_leaf
  pub keys : ℕ → List ℕ
  pub values : ℕ → List ℕ
  pub cells : ℕ → Stored
  pub sorted : IsSorted keys (n_cells d)
  pub readable : (i : ℕ) → i < n_cells d → leaf_key_at d i ≡ ok (keys i)
  pub stored : (i : ℕ) → i < n_cells d → stored_value d i ≡ ok (cells i)
  pub gives : (i : ℕ) → i < n_cells d → Gives (cells i) (values i)
  pub present : (i : ℕ) → i < n_cells d → contents (keys i) ≡ some (values i)
  pub absent : (k : List ℕ) → ((i : ℕ) → i < n_cells d → keys i ≢ k) → contents k ≡ none

-- A child has the keys between its separators.
pub record IsInner (Child : ℕ → Contents → Type 0) (d : Bytes) (contents : Contents) : Type 0 where
  pub type : ntype d ≡ node_internal
  pub keys : ℕ → List ℕ
  pub children : ℕ → ℕ
  pub parts : ℕ → Contents
  pub sorted : IsSorted keys (n_cells d)
  pub readable : (i : ℕ) → i < n_cells d → internal_key_at d i ≡ ok (keys i)
  pub linked : (i : ℕ) → i ≤ n_cells d → child d i ≡ ok (children i)
  pub below : (i : ℕ) → i ≤ n_cells d → Child (children i) (parts i)
  pub divided :
      (k : List ℕ) (i : ℕ)
      → i ≤ n_cells d
      → ((j : ℕ) → j < i → compare k (keys j) ≢ less)
      → ((j : ℕ) → i ≤ j → j < n_cells d → compare k (keys j) ≡ less)
      → contents k ≡ parts i k

module _ (page : ℕ → Bytes) (Live : ℕ → Type 0) where
  -- The pages `ids` are the overflow chain that begins at `first`.
  abbrev pub IsChain : List ℕ → ℕ → Type 0
  IsChain [] first = first ≡ 0
  IsChain (i ∷ ids) first = (first ≡ i) × (i ≢ 0) × Live i × IsChain ids (next_of (page i))

  -- The value of `vallen` bytes on the pages `ids`, behind what was read before. It is filled with
  -- zeros where the chain is too short.
  unfoldable pub collect : ℕ → List ℕ → List ℕ → List ℕ
  collect vallen value [] = value ++ replicate (vallen - length value) 0
  collect vallen value (i ∷ ids) =
      collect vallen
        (value
          ++ slice (min overflow_chunk_size (vallen - length value)) (page i) overflow_header_size)
        ids

  -- A cell gives a value; its chain has at most `longest` pages.
  abbrev pub Gives : ℕ → Stored → List ℕ → Type 0
  Gives longest (inline w) v = v ≡ w
  Gives longest (chained first vallen) v =
      (ids : List ℕ) × IsChain ids first × (length ids ≤ longest) × (v ≡ collect vallen [] ids)

  -- The tree of height `h` whose root is page `i` holds `contents`.
  abbrev pub IsTree : ℕ → ℕ → ℕ → Contents → Type 0
  IsTree longest zero i contents = (i ≢ 0) × Live i × IsLeaf (Gives longest) (page i) contents
  IsTree longest (suc h) i contents =
      (i ≢ 0) × Live i × IsInner (IsTree longest h) (page i) contents
