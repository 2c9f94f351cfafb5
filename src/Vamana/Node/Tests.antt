-- ===== src/Vamana/Node/Tests.antt =====
-- A cache of graph nodes over an empty bucket.
use semadb.Base.{All, [], arith, false, if◌then◌else◌, inl, inr, refl, true, ℕ, ◌≡◌, ◌∷◌}
use semadb.Base.Assoc.{lookup, nat_eq}
use semadb.Base.Result.{err, not_found, ok}
use semadb.Diskstore.{new_mem_bucket}
use semadb.Diskstore.Laws.{new_mem_bucket-writable}
use semadb.Shard.ItemCache
use semadb.Shard.ItemCache.{ItemCache, ItemCacheElem}
use semadb.Shard.ItemCache.Flush.{IsFlushed, IsSettled, flush_lem, flushed}
use semadb.Shard.ItemCache.Many.{found_items, get_many_lem}
use semadb.Shard.ItemCache.View.{IsReadable, among, delete_lem, view}
use semadb.Vamana.Node.{GraphNode, node_storable}
use semadb.Vamana.Node.Storage.{IsNodeId, IsNodeOf, node-IsStorable, read_from-new_mem_bucket}

abbrev start_node : GraphNode
start_node = record { id = 1; edges = 2 ∷ 3 ∷ []; is_dirty = false }

abbrev gone_node : GraphNode
gone_node = record { id = 2; edges = 1 ∷ []; is_dirty = true }

-- node 1 was put, node 2 deleted
abbrev cached : ItemCache ℕ GraphNode
cached = record {
  items =
      (1, record { value = start_node; is_dirty = true; is_deleted = false })
      ∷ (2, record { value = gone_node; is_dirty = false; is_deleted = true })
      ∷ [];
  is_all_in_cache = false;
  bucket = new_mem_bucket false;
}

cached-IsReadable : IsReadable node_storable (new_mem_bucket false)
cached-IsReadable id = inl (read_from-new_mem_bucket id)

delete_lem_example :
    (c' : ItemCache ℕ GraphNode) × (ItemCache.delete node_storable cached (1 ∷ 7 ∷ []) ≡ ok c')
    × ((j : ℕ)
        → view node_storable c' j ≡ (
            if among node_storable j (1 ∷ 7 ∷ [])
            then err not_found
            else view node_storable cached j))
    × (c'.bucket ≡ new_mem_bucket false)
delete_lem_example = delete_lem node_storable cached (1 ∷ 7 ∷ []) cached-IsReadable

get_many_lem_example :
    (c' : ItemCache ℕ GraphNode) × (ItemCache.get_many node_storable cached (1 ∷ 2 ∷ 9 ∷ [])
      ≡ ok (found_items node_storable cached (1 ∷ 2 ∷ 9 ∷ []), c'))
    × ((j : ℕ) → view node_storable c' j ≡ view node_storable cached j)
get_many_lem_example = get_many_lem node_storable cached (1 ∷ 2 ∷ 9 ∷ []) cached-IsReadable

cached-IsSettled : All (IsSettled node_storable IsNodeId IsNodeOf cached.bucket) cached.items
cached-IsSettled = (
  (omega arith, (refl, ground arith), inr (inl refl)),
  ((omega arith, (refl, ground arith), inl refl), tt),
)

flush_lem_example :
    (c' : ItemCache ℕ GraphNode) × (ItemCache.flush node_storable cached ≡ ok c')
    × All IsFlushed c'.items
    × ((j : ℕ)
        → IsNodeId j
        → node_storable.read_from j c'.bucket ≡ flushed node_storable cached.items cached.bucket j)
unfolding lookup
flush_lem_example =
    flush_lem node_storable IsNodeId IsNodeOf node-IsStorable cached (refl, (refl, tt))
      cached-IsSettled new_mem_bucket-writable
