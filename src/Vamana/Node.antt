-- ===== src/Vamana/Node.antt =====
-- shard/index/vamana/node.go: a node of the graph and how it is stored. The cached neighbours are the
-- points that the edges name, so that the edges stand for both.
pub mod Storage
mod Tests
use semadb.Base.{
  Bool, List, Option, [], false, if◌then◌else◌, length, none, some, true, ℕ, ◌+◌, ◌*◌, ◌∷◌,
}
use semadb.Base.Result.{Result, err, not_found, ok}
use semadb.Conversion.{Bytes, bytes_to_edge_list, edge_list_to_bytes, node_id_from_key, node_key}
use semadb.Diskstore
use semadb.Diskstore.{MemBucket}
use semadb.Shard.ItemCache.{Storable}
use semadb.Vamana.Prune

pub record GraphNode : Type 0 where
  pub id : ℕ
  pub edges : List ℕ
  pub is_dirty : Bool

pub clear_neighbours : GraphNode → GraphNode
clear_neighbours g = record g { edges = []; is_dirty = true }

-- the node, and the number of its edges
pub add_neighbour : GraphNode → ℕ → ℕ × GraphNode
add_neighbour g p =
    let edges = Prune.add_neighbour g.edges p in
    (length edges, record g { edges = edges; is_dirty = true })

pub check_and_clear_dirty : GraphNode → Bool × GraphNode
check_and_clear_dirty g = if g.is_dirty then (true, record g { is_dirty = false }) else (false, g)

pub read_from : ℕ → MemBucket → Result GraphNode
read_from id bucket = elim (Diskstore.get bucket (node_key id b'e')) [
  | some edge_bytes ↦
      ok (record { id = id; edges = bytes_to_edge_list edge_bytes; is_dirty = false })
  | none ↦ err not_found
]

pub write_to : ℕ → GraphNode → MemBucket → Result MemBucket
write_to id g bucket = Diskstore.put bucket (node_key id b'e') (edge_list_to_bytes g.edges)

pub delete_from : ℕ → GraphNode → MemBucket → Result MemBucket
delete_from id g bucket = Diskstore.delete bucket (node_key id b'e')

abbrev pub node_storable : Storable ℕ GraphNode
node_storable = record {
  id_from_key = λ key. node_id_from_key key b'e';
  check_and_clear_dirty = check_and_clear_dirty;
  read_from = read_from;
  write_to = write_to;
  delete_from = delete_from;
  size_in_memory = λ g. length g.edges * 8 + 16;
}
