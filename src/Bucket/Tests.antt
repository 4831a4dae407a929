-- ===== src/Bucket/Tests.antt =====
-- A transaction with one bucket, over a store in memory.
use frostfire.Prelude.{
  ◌≡◌, ◌+◌, ◌-◌, refl, true, false, [], ◌∷◌, some, ok, err, bucket_not_found, arith,
}
use frostfire.Bytes.{Bytes, write, put_le, get_le, slice, put_bytes}
use frostfire.Node.{
  node_leaf, search_leaf, search_leaf_loop, leaf_key_at, leaf_key, append_leaf_cell, leaf_cell_size,
  free_space, header_size, ntype, n_cells, first_cell_offset, init_node, set_n_cells,
  set_first_cell_offset, encode_leaf_cell, enter_cell, enter, cell_offset,
}
use frostfire.Node.Key.{compare}
use frostfire.BTree.Lookup.{stored_value, leaf_value, search_from, search_tree}
use frostfire.BTree.Runs.{one_if}
use frostfire.BTree.Forest.{page_or_zeros}
use frostfire.BTree.Memory.{Memory, memory_pages, empty}
use frostfire.Bucket.Defs.{
  Bucket, Session, root_bytes, catalog_entry, open_bucket, create_bucket, drop_bucket,
  apply_bucket_changes, catalog_lookup, le_value,
}
use frostfire.Bucket.Cache.{OnSuccess, create_bucket-Opens}
use frostfire.Bucket.Empty.{fresh_session, drop_bucket-stays}
use frostfire.Bucket.Dropped.{drop_bucket-Refuses}
use frostfire.Bucket.Catalog.{catalog_entry-root_bytes}

abbrev users : Bucket
users = record { tree = some 0; orig_root = 0; created = true; dropped = false }

abbrev session : Session
session = record {
  writable = true;
  closed = false;
  catalog_root = 0;
  buckets = ((117 ∷ [], users) ∷ []);
}

create_bucket-Opens_example :
    OnSuccess
      (λ (b, t') s'. open_bucket memory_pages 1 t' (118 ∷ []) s' ≡ some (ok (b, t'), s'))
      (create_bucket memory_pages 1 session (118 ∷ []) empty)
create_bucket-Opens_example = create_bucket-Opens memory_pages 1 (118 ∷ []) session empty

drop_bucket-Refuses_example :
    OnSuccess
      (λ t' s'. open_bucket memory_pages 1 t' (117 ∷ []) s' ≡ some (err bucket_not_found, s'))
      (drop_bucket memory_pages 1 session (117 ∷ []) empty)
drop_bucket-Refuses_example = drop_bucket-Refuses memory_pages 1 (117 ∷ []) session empty

catalog_entry-root_bytes_example :
    catalog_entry memory_pages (some (root_bytes 70000)) empty ≡ some (ok (some 70000), empty)
catalog_entry-root_bytes_example = catalog_entry-root_bytes memory_pages 70000 empty (omega arith)

-- A catalog of one leaf, with an entry of root 0.
abbrev entry_page : Bytes
entry_page =
    page_or_zeros (append_leaf_cell (117 ∷ []) (root_bytes 0) 0 (init_node node_leaf (λ p. 0)))

abbrev recorded : Memory
recorded = record empty { pages = λ i. entry_page; next = 3 }

-- What Search leaves of it: pins that come and go.
abbrev visited : Memory
visited = record recorded { pins = λ m. recorded.pins m + one_if m 2 - one_if m 2 }

recorded_lookup : catalog_lookup memory_pages 3 2 (117 ∷ []) recorded ≡ some (ok (some 0), visited)
unfolding catalog_lookup catalog_entry search_tree search_from search_leaf search_leaf_loop
    leaf_value le_value root_bytes compare leaf_key_at leaf_key append_leaf_cell leaf_cell_size
    free_space header_size ntype n_cells first_cell_offset init_node set_n_cells
    set_first_cell_offset encode_leaf_cell enter_cell enter write put_le get_le slice put_bytes
    stored_value cell_offset
recorded_lookup = refl

drop_bucket-stays_example :
    (t : Session) × (drop_bucket memory_pages 3 (fresh_session memory_pages 2) (117 ∷ []) recorded
      ≡ some (ok t, visited))
    × (apply_bucket_changes memory_pages 3 t visited ≡ some (ok t, visited))
    × (t.catalog_root ≡ 2)
drop_bucket-stays_example =
    drop_bucket-stays memory_pages 2 2 (117 ∷ []) recorded visited recorded_lookup
