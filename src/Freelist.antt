-- ===== src/Freelist.antt =====
-- freelist.go: the pages that committed transactions gave up, oldest first, each with the id of the
-- transaction that freed it.
pub mod Order
pub mod Chain
pub mod Stored
mod Tests
use frostfire.Prelude.{ℕ, Bool, List, [], ◌∷◌, ◌++◌, map, ltb, if◌then◌else◌, Option, none, some}

pub record FreelistEntry : Type 0 where
  pub page_id : ℕ
  pub freed_at : ℕ

-- `pending`
abbrev pub Freelist : Type 0
Freelist = List FreelistEntry

abbrev pub entry : ℕ → ℕ → FreelistEntry
entry freed_at id = record { page_id = id; freed_at = freed_at }

unfoldable pub push : ℕ → List ℕ → Freelist → Freelist
push freed_at [] pending = pending
push freed_at (id ∷ ids) pending = push freed_at ids (pending ++ entry freed_at id ∷ [])

-- The page id and the list without it; `none` is `(0, false)`.
unfoldable pub pop_reusable : ℕ → Freelist → Option (ℕ × Freelist)
pop_reusable min_reader_txn [] = none
pop_reusable min_reader_txn (e ∷ es) =
    if ltb min_reader_txn e.freed_at then none else some (e.page_id, es)

unfoldable pub all : Freelist → List ℕ
all [] = []
all (e ∷ es) = e.page_id ∷ all es

unfoldable pub load : List ℕ → Freelist
load [] = []
load (id ∷ ids) = entry 0 id ∷ load ids
