-- ===== src/Freelist/Chain.antt =====
-- The freelist as it is stored: a chain of pages. A page is read through what the buffer pool's Get
-- returns for it.
use frostfire.Prelude.{
  ℕ, zero, suc, List, [], ◌∷◌, ◌++◌, ◌==◌, if◌then◌else◌, length, take, drop, Option, none, some,
  Result, ok, err, panic, ◌>>=◌, ltb,
}
use frostfire.Bytes.{Bytes, page_size}
use frostfire.FreelistPage.{
  freelist_per_page, encode_freelist_page, decode_freelist_page, freelist_page_next,
}

-- What Get returns for a page.
abbrev pub Fetch : Type 0
Fetch = ℕ → Result Bytes

-- The loop of walkChainIDs, with the ids found so far; `none` is fuel that ran out.
unfoldable pub walk_chain_loop : ℕ → Fetch → ℕ → List ℕ → Option (Result (List ℕ))
walk_chain_loop zero fetch id ids = none
walk_chain_loop (suc fuel) fetch id ids =
    let round : Option (Result (List ℕ)) = elim (fetch id) [
      | err e ↦ some (err e)
      | panic ↦ some panic
      | ok page ↦ walk_chain_loop fuel fetch (freelist_page_next page) (ids ++ id ∷ [])
    ] in
    if id == 0 then some (ok ids) else round

unfoldable pub walk_chain_ids : ℕ → Fetch → ℕ → Option (Result (List ℕ))
walk_chain_ids fuel fetch head = walk_chain_loop fuel fetch head []

unfoldable pub read_chain_loop : ℕ → Fetch → ℕ → List ℕ → Option (Result (List ℕ))
read_chain_loop zero fetch id all = none
read_chain_loop (suc fuel) fetch id all =
    let round : Option (Result (List ℕ)) = elim (fetch id >>= decode_freelist_page page_size) [
      | err e ↦ some (err e)
      | panic ↦ some panic
      | ok (ids, next) ↦ read_chain_loop fuel fetch next (all ++ ids)
    ] in
    if id == 0 then some (ok all) else round

unfoldable pub read_freelist_chain : ℕ → Fetch → ℕ → Option (Result (List ℕ))
read_freelist_chain fuel fetch head = read_chain_loop fuel fetch head []

-- The last loop of persistFreelist, on the pages that GetForWrite gives, each cleared before it is
-- written: the chain's ids from one on, and the free ids from that page on.
abbrev pub head_id : List ℕ → ℕ
head_id [] = 0
head_id (id ∷ ids) = id

abbrev pub set_page : Fetch → ℕ → Bytes → Fetch
set_page fetch id page = λ i. if i == id then ok page else fetch i

-- The slice of the ids for a page is out of range if the page before was not full.
unfoldable pub write_chain : List ℕ → List ℕ → Fetch → Result Fetch
write_chain [] persist fetch = ok fetch
write_chain (id ∷ chain) persist fetch = do
  page ← encode_freelist_page (λ p. 0) (take freelist_per_page persist) (head_id chain)
  let rest = write_chain chain (drop freelist_per_page persist) (set_page fetch id page)
  if ltb 0 (length chain)
      then (if ltb (length persist) freelist_per_page then panic else rest)
      else rest
