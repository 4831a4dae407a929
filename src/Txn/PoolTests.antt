-- ===== src/Txn/PoolTests.antt =====
-- Runs over a pool of two frames: Search in a transaction, on a file with a small tree, and a commit of
-- the header, on a file with a header.
use frostfire.Prelude.{
  ◌⊎◌, inl, none, true, ℕ, ◌*◌, ◌/◌, ◌≡◌, inr, refl, ap, subst, fun_ext, true, false, arith, [],
  ◌∷◌, ◌==◌, if◌then◌else◌,
}
use frostfire.Bytes.{Bytes, page_size}
use frostfire.Storage.{StorageManager}
use frostfire.Storage.Pages.{Inside}
use frostfire.BufferPool.Defs.{BufferPool, update, new_buffer_pool}
use frostfire.BufferPool.Coherence.{AtRest}
use frostfire.Storage.BatchTests.{memory, memory_laws, memory_vectors}
use frostfire.BufferPool.PoolTests.{changed_pool, Besides, changed_pool-AtRest, memory-WholeRuns}
use frostfire.BufferPool.Fresh.{new_buffer_pool-AtRest}
use frostfire.BTree.Runs.{Run}
use frostfire.BTree.Lookup.{search_tree}
use frostfire.BTree.Forest.{forest, both, forest-IsTree}
use frostfire.Txn.Pager.{Pager}
use frostfire.Txn.Pool.{buffer_pool}
use frostfire.Txn.Defs.{Txn, Db, new_txn}
use frostfire.Txn.Store.{TxnState, txn_pages}
use frostfire.Txn.Pooled.{Unmoved, search_tree-pooled}
use frostfire.Txn.Tests.{meta_7}
use frostfire.BufferPool.Saving.{fewer-IsCoherent}
use frostfire.Storage.Pages.{stored}
use frostfire.Meta.{next_meta_page}
use frostfire.Meta.Tests.{summed, header_at, header_at-IsHeader, header_page, decode-header_page}
use frostfire.Meta.Tests as Headers
use frostfire.Txn.Commit.{commit_meta}
use frostfire.Txn.Commit.{make_durable}
use frostfire.Txn.Finish.{Among, Committed, Failed, make_durable-Committed}
use frostfire.Txn.Durable.{Published, Unchanged, commit_meta-Published}

abbrev file : StorageManager memory
file = record { file = forest; file_size = 20480 }

abbrev pool : BufferPool memory
unfolding new_buffer_pool
pool = new_buffer_pool memory file 2 (λ p. 0)

abbrev pager : Pager
pager = buffer_pool memory 17 (λ run. false)

abbrev db : Db pager
unfolding pool new_buffer_pool
db = record {
  pool = pool;
  current_meta = meta_7;
  current_meta_page = 1;
  pending = [];
  readers = (7, 1) ∷ [];
  writer_held = false;
}

abbrev reading : TxnState pager
unfolding db pool new_buffer_pool
reading = (new_txn false meta_7, db)

own_page : (id : ℕ) → id * page_size / page_size ≡ id
own_page id = omega arith

pool-AtRest : AtRest memory_laws forest (Inside memory file) (Inside memory file) pool
unfolding memory_laws pool new_buffer_pool
pool-AtRest =
    subst (λ f. AtRest memory_laws f (Inside memory file) (Inside memory file) pool)
      (fun_ext λ id. ap forest (own_page id))
      (new_buffer_pool-AtRest memory_laws file 2 (λ p. 0) (omega arith))

search_tree-pooled_example :
    Run
      (λ v t.
        (v ≡ both (99 ∷ []))
        × Unmoved memory_laws forest
            (Inside memory file)
            (Inside memory file)
            17
            (λ run. false)
            reading
            t)
      (λ t.
        Unmoved memory_laws forest
          (Inside memory file)
          (Inside memory file)
          17
          (λ run. false)
          reading
          t)
      (search_tree (txn_pages pager) 2 4 (99 ∷ []) reading)
unfolding reading
search_tree-pooled_example =
    search_tree-pooled memory_laws forest (Inside memory file) (Inside memory file) 17
      (λ run. false) 0 1 2 4 both (99 ∷ []) reading
      (forest-IsTree (Inside memory file) (omega arith) (omega arith) (omega arith)) (omega arith)
      (refl, pool-AtRest)

-- Page 1 holds the header of transaction 7, and the other pages zeros.
abbrev header_pages : ℕ → Bytes
header_pages id = if id == 1 then header_page 7 else λ p. 0

abbrev header_file : StorageManager memory
header_file = record { file = header_pages; file_size = 65536 }

abbrev IsCurrent : ℕ → Type 0
IsCurrent id = id ≡ 1

abbrev IsUsed : ℕ → Type 0
IsUsed id = (id ≡ 1) ⊎ (id ≡ 5)

abbrev header_db : Db pager
unfolding new_buffer_pool
header_db = record {
  pool = new_buffer_pool memory header_file 2 (λ p. 0);
  current_meta = Headers.stored 7;
  current_meta_page = 1;
  pending = [];
  readers = [];
  writer_held = true;
}

header_pool-AtRest : AtRest memory_laws header_pages IsUsed IsCurrent header_db.pool
unfolding memory_laws header_db new_buffer_pool
header_pool-AtRest =
    subst (λ f. AtRest memory_laws f IsUsed IsCurrent header_db.pool)
      (fun_ext λ id. ap header_pages (own_page id))
      (fewer-IsCoherent memory_laws (stored memory_laws header_file) (Inside memory header_file)
        (Inside memory header_file) IsUsed IsCurrent (λ j. false) header_db.pool
        (λ j e. omega (arith, e)) (λ j e. omega (arith, e)) (λ j e. inl e)
        (new_buffer_pool-AtRest memory_laws header_file 2 (λ p. 0) (omega arith)))

commit_meta-Published_example :
    Run
      (λ m' t.
        Published memory_laws header_pages IsUsed IsCurrent 17
          (λ run. false)
          summed
          (header_at 8)
          m'
          header_db
          t)
      (λ t.
        Unchanged memory_laws header_pages IsUsed IsCurrent 17 (λ run. false) summed header_db t)
      (commit_meta pager summed (header_at 8) header_db)
unfolding header_db next_meta_page
commit_meta-Published_example =
    commit_meta-Published memory_laws header_pages IsUsed IsCurrent 17 (λ run. false) summed
      (Headers.stored 7) (header_at 8) header_db (inr refl) (λ e. omega (arith, e)) (omega arith)
      refl (decode-header_page 7 (omega arith)) (omega arith) (header_at-IsHeader 8 (omega arith))
      refl header_pool-AtRest

-- A transaction that has written page 5, which is in a dirty frame.
abbrev writing : Txn
writing = record (new_txn true (header_at 7)) { allocated = 5 ∷ [] }

abbrev written_pages : ℕ → Bytes
written_pages = update (stored memory_laws header_file) 5 (λ p. 55)

abbrev written_db : Db pager
unfolding changed_pool
written_db = record header_db { pool = changed_pool header_file 2 5 (λ p. 55) }

written_pool-AtRest : AtRest memory_laws written_pages IsUsed IsCurrent written_db.pool
unfolding written_db
written_pool-AtRest =
    fewer-IsCoherent memory_laws written_pages (Inside memory header_file) (Besides header_file 5)
      IsUsed IsCurrent (λ j. false) (changed_pool header_file 2 5 (λ p. 55))
      (λ j e. omega (arith, e)) (λ j e. omega (arith, e)) (λ j e. inl e)
      (changed_pool-AtRest header_file 2 5 (λ p. 55) (omega arith) (omega arith))

make_durable-Committed_example :
    Run
      (λ (u : Unit {0}) s.
        Committed memory_laws memory_vectors written_pages IsUsed IsCurrent 17
          (λ run. false)
          summed
          (writing, written_db)
          s)
      (λ s.
        Failed memory_laws memory_vectors written_pages IsUsed IsCurrent 17
          (λ run. false)
          summed
          (writing, written_db)
          s)
      (make_durable pager summed (writing, written_db))
unfolding written_db header_db changed_pool next_meta_page memory_laws
make_durable-Committed_example =
    make_durable-Committed memory_laws memory_vectors written_pages IsUsed IsCurrent 17
      (λ run. false) summed (Headers.stored 7) writing written_db (inr refl) (λ e. omega (arith, e))
      (omega arith) refl (decode-header_page 7 (omega arith)) (omega arith) refl
      (header_at-IsHeader 8 (omega arith)) (λ j among. own j among) written_pool-AtRest
      (omega arith) (omega arith) (memory-WholeRuns 17 (λ run. false) 0 _ none _)
  where
    own : (j : ℕ) → Among (5 ∷ []) j → IsUsed j
    own j (inl e) = inr e
    own j (inr out) = elim out [ ]
