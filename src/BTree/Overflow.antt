-- ===== src/BTree/Overflow.antt =====
-- overflow.go: large values as chains of pages.
use frostfire.Prelude.{
  ℕ, zero, suc, ◌+◌, ◌-◌, List, [], ◌∷◌, ◌++◌, leb, ◌==◌, if◌then◌else◌, min, length, take, drop,
  replicate, Option, none, some, ok,
}
use frostfire.Bytes.{Bytes, page_size, write, put_le, get_le, slice, put_bytes}
use frostfire.Node.{leaf_cell_header, max_inline_size}
use frostfire.BTree.Pages.{Pages}
use frostfire.BTree.Action.{Action, pure, call, out_of_fuel, on_error, ◌>>=◌, ◌>>◌}
use frostfire.BTree.Nodes.{bytes, id, release, free_page, get_node, edit}

abbrev pub node_overflow : ℕ
node_overflow = 3

abbrev pub overflow_header_size : ℕ
overflow_header_size = 9

abbrev pub overflow_chunk_size : ℕ
overflow_chunk_size = page_size - overflow_header_size

-- A fresh page with a chunk of a value, and the link to the next page.
unfoldable pub chunk_page : List ℕ → Bytes → Bytes
chunk_page chunk d = put_bytes (put_le 8 (write d 0 node_overflow) 1 0) overflow_header_size chunk

unfoldable pub set_next : ℕ → Bytes → Bytes
set_next next d = put_le 8 d 1 next

unfoldable pub next_of : Bytes → ℕ
next_of d = get_le 8 d 1

module _ (p : Pages) where
  open p use {State, allocate}

  abbrev pub release_prev : Option ℕ → Action State (Unit {0})
  release_prev none = pure tt
  release_prev (some n) = release p n

  -- The previous page is linked to page `i` and let go; the first page gives the id of the chain.
  abbrev pub link : Option ℕ → (first i : ℕ) → Action State ℕ
  link none first i = pure i
  link (some n) first i = do edit p n (λ d. ok (set_next i d)); release p n; pure first

  -- The loop of writeOverflowPages, on what is left of the value.
  unfoldable pub write_chunks : ℕ → List ℕ → (first : ℕ) → Option ℕ → Action State ℕ
  write_chunks zero value first prev = out_of_fuel
  write_chunks (suc fuel) [] first prev = release_prev prev >>= λ done. pure first
  write_chunks (suc fuel) (b ∷ bs) first prev = do
    n ← on_error (call allocate) (release_prev prev)
    edit p n (λ d. ok (chunk_page (take overflow_chunk_size (b ∷ bs)) d))
    i ← id p n
    first' ← link prev first i
    write_chunks fuel (drop overflow_chunk_size (b ∷ bs)) first' (some n)

  unfoldable pub write_overflow_pages : List ℕ → Action State ℕ
  unfolding write_chunks
  write_overflow_pages value = write_chunks (suc (length value)) value 0 none

  -- The loop of readOverflowPages, with what has been read.
  unfoldable pub read_chunks : ℕ → (i vallen : ℕ) → List ℕ → Action State (List ℕ)
  read_chunks zero i vallen value = out_of_fuel
  read_chunks (suc fuel) i vallen value =
      let round : Action State (List ℕ) = (do
        n ← get_node p i
        d ← bytes p n
        release p n
        read_chunks fuel (next_of d) vallen (
            value
            ++ slice (min overflow_chunk_size (vallen - length value)) d overflow_header_size)) in
      if i == 0 then pure (value ++ replicate (vallen - length value) 0) else round

  unfoldable pub read_overflow_pages : ℕ → (first vallen : ℕ) → Action State (List ℕ)
  unfolding read_chunks
  read_overflow_pages fuel first vallen = read_chunks fuel first vallen []

  unfoldable pub free_overflow_pages : ℕ → ℕ → Action State (Unit {0})
  free_overflow_pages zero i = out_of_fuel
  free_overflow_pages (suc fuel) i =
      let round : Action State (Unit {0}) = (do
        n ← get_node p i
        d ← bytes p n
        release p n
        free_page p i
        free_overflow_pages fuel (next_of d)) in
      if i == 0 then pure tt else round

  unfoldable pub leaf_cell_overflow : List ℕ → List ℕ → Action State ℕ
  unfolding write_overflow_pages
  leaf_cell_overflow key value =
      if leb (leaf_cell_header + length key + length value) max_inline_size
      then pure 0
      else write_overflow_pages value
