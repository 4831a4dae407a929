-- ===== src/Freelist/Tests.antt =====
-- Runs of the freelist.
use frostfire.Prelude.{◌≡◌, refl, [], ◌∷◌, arith, some, none, ok, err, io_error}
use frostfire.Freelist.{Freelist, entry, push, pop_reusable}
use frostfire.Freelist.Chain.{Fetch, write_chain, read_freelist_chain, walk_chain_ids}
use frostfire.Freelist.Stored.{read_freelist_chain-write_chain}
use frostfire.Freelist.Order.{IsOrdered, push-IsOrdered, Pops, pop_reusable-Pops}

abbrev pending : Freelist
pending = entry 3 20 ∷ entry 5 21 ∷ entry 5 22 ∷ []

push-IsOrdered_example : IsOrdered 3 6 (push 6 (30 ∷ 31 ∷ []) pending)
push-IsOrdered_example =
    push-IsOrdered 3 5 6 (30 ∷ 31 ∷ []) pending (omega arith) (omega arith) (omega arith)

pop_reusable-Pops_example : Pops 4 pending (pop_reusable 4 pending)
pop_reusable-Pops_example = pop_reusable-Pops 3 5 4 pending (omega arith)

popped : pop_reusable 4 pending ≡ some (20, entry 5 21 ∷ entry 5 22 ∷ [])
unfolding pop_reusable
popped = refl

held_back : pop_reusable 2 pending ≡ none
unfolding pop_reusable
held_back = refl

abbrev no_pages : Fetch
no_pages = λ id. err io_error

read_freelist_chain-write_chain_example :
    (after : Fetch) × (write_chain (9 ∷ []) (20 ∷ 21 ∷ []) no_pages ≡ ok after)
    × (read_freelist_chain 2 after 9 ≡ some (ok (20 ∷ 21 ∷ [])))
    × (walk_chain_ids 2 after 9 ≡ some (ok (9 ∷ [])))
read_freelist_chain-write_chain_example =
    read_freelist_chain-write_chain (9 ∷ []) (20 ∷ 21 ∷ []) no_pages (omega arith) (omega arith)
      (omega arith) (omega arith)
