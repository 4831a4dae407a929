-- ===== src/Txn/Persist.antt =====
-- persistFreelist: the freelist goes to a new chain of pages, and the pages of the old one are freed.
use frostfire.Prelude.{
  ℕ, zero, suc, ◌+◌, ◌-◌, ◌/◌, List, [], ◌∷◌, ◌++◌, leb, ltb, ◌==◌, if◌then◌else◌, length, take,
  drop, Result, ok, panic,
}
use frostfire.Bytes.{page_size}
use frostfire.Freelist.{all}
use frostfire.Freelist.Chain.{head_id}
use frostfire.FreelistPage.{
  freelist_per_page, encode_freelist_page, decode_freelist_page, freelist_page_next,
}
use frostfire.BTree.Action.{Action, pure, call, lift, out_of_fuel, ◌>>=◌, ◌>>◌}
use frostfire.Txn.Pager.{Pager}
use frostfire.Txn.Defs.{Txn, Db}
use frostfire.Txn.Store.{TxnState, store_allocate}
use frostfire.Txn.Run.{
  pool_call, page_bytes, set_page_bytes, unpin_page, on_db, the_txn, the_db, set_txn,
}

module _ (pager : Pager) where
  open pager use {get, get_for_write}

  -- walkChainIDs, with the ids found so far.
  unfoldable pub walk_chain : ℕ → (id : ℕ) → List ℕ → Action (Db pager) (List ℕ)
  walk_chain zero id ids = out_of_fuel
  walk_chain (suc fuel) id ids =
      let round : Action (Db pager) (List ℕ) = (do
        n ← pool_call pager (get id)
        d ← page_bytes pager n
        unpin_page pager n
        walk_chain fuel (freelist_page_next d) (ids ++ id ∷ [])) in
      if id == 0 then pure ids else round

  -- readFreelistChain, with the free pages found so far.
  unfoldable pub read_chain : ℕ → (id : ℕ) → List ℕ → Action (Db pager) (List ℕ)
  read_chain zero id ids = out_of_fuel
  read_chain (suc fuel) id ids =
      let round : Action (Db pager) (List ℕ) = (do
        n ← pool_call pager (get id)
        d ← page_bytes pager n
        unpin_page pager n
        (more, next) ← lift (decode_freelist_page page_size d)
        read_chain fuel next (ids ++ more)) in
      if id == 0 then pure ids else round

  -- The pages that the free ids take.
  unfoldable pub chain_need : Txn → Db pager → ℕ
  chain_need t db =
      (length db.pending + length t.freed + length t.reusable + freelist_per_page - 1)
      / freelist_per_page

  -- The loop that allocates the chain.
  unfoldable pub grow_chain : ℕ → List ℕ → Action (TxnState pager) (List ℕ)
  unfolding chain_need
  grow_chain zero chain = out_of_fuel
  grow_chain (suc fuel) chain = do
    t ← the_txn pager
    db ← the_db pager
    let round : Action (TxnState pager) (List ℕ) = (do
      n ← call (store_allocate pager)
      on_db pager (unpin_page pager n)
      after ← the_db pager
      grow_chain fuel (chain ++ pager.page_id n after.pool ∷ []))
    if leb (chain_need t db) (length chain) then pure chain else round

  -- `persist[start:]` for the next page, which is out of range if this page is not full.
  abbrev slice_from : List ℕ → Result (List ℕ)
  slice_from persist =
      if ltb (length persist) freelist_per_page then panic else ok (drop freelist_per_page persist)

  -- The loop that writes the chain, with the free ids from `start` on.
  unfoldable pub write_chain_pages : List ℕ → Result (List ℕ) → Action (Db pager) (Unit {0})
  write_chain_pages [] rest = pure tt
  write_chain_pages (id ∷ chain) rest = do
    n ← pool_call pager (get_for_write id)
    persist ← lift rest
    page ← lift (encode_freelist_page (λ p. 0) (take freelist_per_page persist) (head_id chain))
    set_page_bytes pager n page
    unpin_page pager n
    write_chain_pages chain (slice_from persist)

  abbrev pub set_freelist_root : ℕ → Action (TxnState pager) (Unit {0})
  set_freelist_root root = the_txn pager >>= λ t.
      set_txn pager (record t { meta = record (t.meta) { freelist_root = root } })

  unfoldable pub store_chain : List ℕ → Action (TxnState pager) (Unit {0})
  unfolding write_chain_pages
  store_chain [] = set_freelist_root 0
  store_chain (id ∷ chain) = do
    t ← the_txn pager
    db ← the_db pager
    on_db pager (write_chain_pages (id ∷ chain) (ok (all db.pending ++ t.freed ++ t.reusable)))
    set_freelist_root id

  unfoldable pub persist_freelist : ℕ → Action (TxnState pager) (Unit {0})
  unfolding walk_chain grow_chain store_chain
  persist_freelist fuel = do
    t ← the_txn pager
    old_chain ← on_db pager (walk_chain fuel (t.meta.freelist_root) [])
    set_txn pager (record t { freed = t.freed ++ old_chain })
    t' ← the_txn pager
    db ← the_db pager
    chain ← grow_chain (suc (chain_need t' db)) []
    store_chain chain
