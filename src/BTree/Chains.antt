-- ===== src/BTree/Chains.antt =====
-- A value on a chain of overflow pages, and what the writing of a chain asks of the store.
use frostfire.Prelude.{
  ℕ, zero, suc, ◌+◌, ◌-◌, ◌^◌, ◌≤◌, ◌<◌, ◌≡◌, ◌≢◌, refl, ap, ◌∙◌, inr, List, [], ◌∷◌, ◌++◌,
  append_assoc, min, length, take, drop, length-take, length-drop, length-append, Result, ok, err,
  panic, arith,
}
use frostfire.Bytes.{Bytes, write, put_le, slice, put_bytes}
use frostfire.Bytes.Codec.{get_le-put_le, get_le-ext, put_le_ne, put_bytes_ne, slice-put_bytes}
use frostfire.BTree.Overflow.{
  overflow_chunk_size, overflow_header_size, chunk_page, set_next, next_of,
}
use frostfire.BTree.Pages.{Pages}
use frostfire.BTree.Runs.{one_if}
use frostfire.BTree.Trees.{collect}

-- The pages `ids` have the chunks of `value`.
abbrev pub Chunks : (ℕ → Bytes) → List ℕ → List ℕ → Type 0
Chunks page [] value = value ≡ []
Chunks page (i ∷ ids) value =
    (slice (min overflow_chunk_size (length value)) (page i) overflow_header_size
      ≡ take overflow_chunk_size value)
    × Chunks page ids (drop overflow_chunk_size value)

take-drop : (n : ℕ) (xs : List ℕ) → take n xs ++ drop n xs ≡ xs
take-drop zero xs = refl
take-drop (suc n) [] = refl
take-drop (suc n) (x ∷ xs) = ap (λ ys. x ∷ ys) (take-drop n xs)

pub collect-Chunks :
    (page : ℕ → Bytes) (Live : ℕ → Type 0) (ids value before : List ℕ) (vallen : ℕ)
    → length before + length value ≡ vallen
    → Chunks page ids value
    → collect page Live vallen before ids ≡ before ++ value
unfolding collect
collect-Chunks page Live [] value before vallen e h =
    let none_left : vallen - length before ≡ 0 = omega (arith, ap length h) in
    rw (none_left, h) refl
collect-Chunks page Live (i ∷ ids) value before vallen e (chunk, rest) =
    let left : vallen - length before ≡ length value = omega arith in
    let first : List ℕ = take overflow_chunk_size value in
    let later : List ℕ = drop overflow_chunk_size value in
    rw (left, chunk)
      (collect-Chunks page Live ids later (before ++ first) vallen
          (omega (
            arith,
            length-append before first,
            length-take overflow_chunk_size value,
            length-drop overflow_chunk_size value,
          ))
          rest
        ∙ append_assoc before first later
        ∙ ap (λ v. before ++ v) (take-drop overflow_chunk_size value))

pub next_of-chunk_page : (chunk : List ℕ) (d : Bytes) → next_of (chunk_page chunk d) ≡ 0
unfolding next_of chunk_page
next_of-chunk_page chunk d =
    get_le-ext 8 (put_bytes (put_le 8 (write d 0 3) 1 0) 9 chunk) (put_le 8 (write d 0 3) 1 0) 1
      (λ q lo hi. put_bytes_ne chunk (put_le 8 (write d 0 3) 1 0) 9 q (inr (omega arith)))
    ∙ get_le-put_le 8 (write d 0 3) 1 0 (omega arith)

pub next_of-set_next : (i : ℕ) (d : Bytes) → i < 256 ^ 8 → next_of (set_next i d) ≡ i
unfolding next_of set_next
next_of-set_next i d small = get_le-put_le 8 d 1 i small

pub set_next-behind : (i : ℕ) (d : Bytes) (q : ℕ) → 9 ≤ q → set_next i d q ≡ d q
unfolding set_next
set_next-behind i d q h = put_le_ne 8 d 1 i q (omega arith)

pub slice-chunk_page :
    (chunk : List ℕ) (d : Bytes)
    → slice (length chunk) (chunk_page chunk d) overflow_header_size ≡ chunk
unfolding chunk_page
slice-chunk_page chunk d = slice-put_bytes chunk (put_le 8 (write d 0 3) 1 0) 9

module _ (p : Pages) where
  open p use {State, get, allocate, unpin, id_of, bytes_of, set_bytes}

  -- What the writing of pages relies on: which pages are in use, what each holds, and which frames
  -- are pinned.
  pub record Store : Type 1 where
    pub Good : State → Type 0
    pub Used : State → ℕ → Type 0
    pub content : State → ℕ → Bytes
    pub pins : State → ℕ → ℕ

  module _ (store : Store) where
    open store use {Good, Used, content, pins}

    -- A page that was not in use, in a frame that has one pin more.
    abbrev pub Granted : State → Result ℕ × State → Type 0
    Granted s (ok n, t) =
        Good t
        × ((m : ℕ) → pins t m ≡ pins s m + one_if m n)
        × (id_of n t ≢ 0)
        × (id_of n t < 256 ^ 8)
        × (Used s (id_of n t) → ⊥)
        × Used t (id_of n t)
        × ((i : ℕ) → Used s i → Used t i)
        × ((i : ℕ) → Used s i → content t i ≡ content s i)
        × ((m : ℕ) → 0 < pins s m → id_of m t ≡ id_of m s)
    Granted s (err e, t) = Good t × ((m : ℕ) → pins t m ≡ pins s m)
    Granted s (panic, t) = ⊥

    -- A page in use that was asked for; none has changed.
    abbrev pub Fetched : State → ℕ → Result ℕ × State → Type 0
    Fetched s i (ok n, t) =
        Good t
        × (bytes_of n t ≡ content s i)
        × ((m : ℕ) → pins t m ≡ pins s m + one_if m n)
        × ((j : ℕ) → Used s j → Used t j)
        × ((j : ℕ) → Used s j → content t j ≡ content s j)
    Fetched s i (err e, t) =
        Good t
        × ((m : ℕ) → pins t m ≡ pins s m)
        × ((j : ℕ) → Used s j → Used t j)
        × ((j : ℕ) → Used s j → content t j ≡ content s j)
    Fetched s i (panic, t) = ⊥

    pub record WriteLaws : Type 0 where
      pub get_law : (i : ℕ) (s : State) → Good s → Used s i → Fetched s i (get i s)
      pub allocate_law : (s : State) → Good s → Granted s (allocate s)
      pub bytes_law :
          (n : ℕ) (s : State) → Good s → 0 < pins s n → bytes_of n s ≡ content s (id_of n s)
      pub write_law :
          (n : ℕ) (d : Bytes) (s : State)
          → Good s
          → 0 < pins s n
          → let t = set_bytes n d s in
            Good t
            × ((m : ℕ) → pins t m ≡ pins s m)
            × ((m : ℕ) → id_of m t ≡ id_of m s)
            × ((i : ℕ) → Used s i → Used t i)
            × (content t (id_of n s) ≡ d)
            × ((i : ℕ) → i ≢ id_of n s → content t i ≡ content s i)
      pub unpin_law :
          (n : ℕ) (s : State)
          → Good s
          → 0 < pins s n
          → let (r, t) = unpin n s in
            (r ≡ ok tt)
            × Good t
            × ((m : ℕ) → pins t m ≡ pins s m - one_if m n)
            × ((m : ℕ) → 0 < pins t m → id_of m t ≡ id_of m s)
            × ((i : ℕ) → Used s i → Used t i)
            × ((i : ℕ) → content t i ≡ content s i)
