-- ===== src/BTree/Cuts.antt =====
-- Where splitLeaf and splitInternal cut a node that is too full.
use frostfire.Prelude.{
  ==-refl, ne→==, ℕ_discrete, ◌≢◌, ℕ, zero, suc, ◌+◌, ◌≤◌, ◌<◌, ◌≡◌, refl, Bool, true, false, not,
  ◌&&◌, ltb, if◌then◌else◌, Result, ok, err, panic, ◌>>=◌, arith,
}
use frostfire.Bytes.{Bytes}
use frostfire.Node.{u16, sub16, n_cells, leaf_cell_size_at}
use frostfire.BTree.Split.{
  leaf_size_after, leaf_split_loop, clamp_split, leaf_split_index, leaf_split_point,
}

-- A result between two bounds, the upper one excluded; neither an error nor a panic.
abbrev pub Within : ℕ → ℕ → Result ℕ → Type 0
Within lower upper (ok i) = (lower ≤ i) × (i < upper)
Within lower upper (err e) = ⊥
Within lower upper panic = ⊥

Within-bind :
    (lower upper lower' upper' : ℕ) (r : Result ℕ) (f : ℕ → Result ℕ)
    → Within lower upper r
    → ((i : ℕ) → lower ≤ i → i < upper → Within lower' upper' (f i))
    → Within lower' upper' (r >>= f)
Within-bind lower upper lower' upper' (ok i) f h next = next i h.0 h.1
Within-bind lower upper lower' upper' (err e) f h next = elim h [ ]
Within-bind lower upper lower' upper' panic f h next = elim h [ ]

clamped :
    (total : ℕ) (r : Result ℕ)
    → 2 ≤ total
    → total < 65536
    → Within 1 65536 r
    → Within 1 total (r >>= λ i. ok (clamp_split total i))
unfolding clamp_split
clamped total r two few h =
    Within-bind 1 65536 1 total r (λ i. ok (clamp_split total i)) h
      λ i low high. (ground arith, ground arith)

module _ (d : Bytes) (sizes : ℕ → ℕ) where
  -- The number of cells that a leaf has once a cell is replaced or inserted.
  abbrev pub cells_after : Bool → ℕ
  cells_after true = n_cells d
  cells_after false = n_cells d + 1

  cells_after_bound : (replacing : Bool) → n_cells d < 65535 → cells_after replacing < 65536
  cells_after_bound true small = omega arith
  cells_after_bound false small = omega arith

  module _ (readable : (j : ℕ) → j < n_cells d → leaf_cell_size_at d j ≡ ok (sizes j))
      (insert_idx new_size : ℕ) where
    leaf_size_after-ok :
        (replacing : Bool) (idx : ℕ)
        → n_cells d < 65535
        → insert_idx < cells_after replacing
        → idx < cells_after replacing
        → (size : ℕ) × (leaf_size_after d insert_idx new_size replacing idx ≡ ok size)
    unfolding leaf_size_after
    leaf_size_after-ok replacing idx small h lt = elim (ℕ_discrete idx insert_idx) [
      | yes e ↦ (new_size, rw (e, ==-refl insert_idx) refl)
      | no ne ↦
          let j : ℕ = if not replacing && ltb insert_idx idx then sub16 idx 1 else idx in
          (sizes j, rw (ne→== idx insert_idx ne) (readable j (source replacing idx small h lt ne)))
    ]
      where
        source :
            (replacing : Bool) (idx : ℕ)
            → n_cells d < 65535
            → insert_idx < cells_after replacing
            → idx < cells_after replacing
            → idx ≢ insert_idx
            → (if not replacing && ltb insert_idx idx then sub16 idx 1 else idx) < n_cells d
        source true idx small h lt ne = lt
        source false idx small h lt ne = ground arith

    leaf_split_loop-Within :
        (replacing : Bool) (target count idx running : ℕ)
        → n_cells d < 65535
        → insert_idx < cells_after replacing
        → idx + count ≡ cells_after replacing
        → Within 1 65536 (leaf_split_loop d insert_idx new_size target replacing count idx running)
    unfolding leaf_split_loop
    leaf_split_loop-Within replacing target zero idx running small h e = (omega arith, omega arith)
    leaf_split_loop-Within replacing target (suc count) idx running small h e =
        let read : (size : ℕ) × (leaf_size_after d insert_idx new_size replacing idx ≡ ok size) =
          leaf_size_after-ok replacing idx small h (omega arith) in
        let running' : ℕ = u16 (running + u16 (read.0 + 2)) in
        let few : cells_after replacing < 65536 = cells_after_bound replacing small in
        rw read.1
          (elim (ltb target running')
            as (λ b. Within 1 65536 (
              if b
              then ok (u16 (idx + 1))
              else leaf_split_loop d insert_idx new_size target replacing count (u16 (idx + 1))
                  running')) [
                    | true ↦ (omega arith, omega arith)
                    | false ↦
                        leaf_split_loop-Within replacing target count (u16 (idx + 1)) running' small
                          h (omega arith)
                  ])

    leaf_split_index-Within :
        (replacing : Bool) (target : ℕ)
        → n_cells d < 65535
        → insert_idx < cells_after replacing
        → 2 ≤ cells_after replacing
        → Within 1
            (cells_after replacing)
            (leaf_split_index d insert_idx (cells_after replacing) new_size target replacing)
    unfolding leaf_split_index
    leaf_split_index-Within replacing target small h two =
        clamped (cells_after replacing)
          (leaf_split_loop d insert_idx new_size target replacing (cells_after replacing) 0 0) two
          (cells_after_bound replacing small)
          (leaf_split_loop-Within replacing target (cells_after replacing) 0 0 small h
            (omega arith))

    -- On a leaf with readable cells, of which at least two stay or come, splitLeaf finds a place to
    -- cut that leaves a cell on either side: it neither panics nor runs out of the page.
    pub leaf_split_point-Within :
        (replacing : Bool)
        → n_cells d < 65535
        → insert_idx < cells_after replacing
        → 2 ≤ cells_after replacing
        → Within 1 (cells_after replacing) (leaf_split_point d insert_idx new_size replacing)
    unfolding leaf_split_point
    leaf_split_point-Within true small h two =
        rw (readable insert_idx h) (leaf_split_index-Within true _ small h two)
    leaf_split_point-Within false small h two =
        let exact : u16 (n_cells d + 1) ≡ n_cells d + 1 = omega arith in
        rw exact (leaf_split_index-Within false _ small h two)
