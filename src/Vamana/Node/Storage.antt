-- ===== src/Vamana/Node/Storage.antt =====
-- A node is stored as the cache needs it: it keeps the promises of `IsStorable`.
use semadb.Base.{
  All, Bool-cases, arith, false, inl, inr, refl, ℕ, ◌<◌, ◌==◌, ◌^◌, ◌≡◌, ap, sym, ◌∙◌, ==_iff,
}
use semadb.Base.Assoc.{nat_eq}
use semadb.Base.Result.{err, not_found, ok}
use semadb.Conversion.{node_key, edge_list_to_bytes}
use semadb.Conversion.Keys.{node_key_injective}
use semadb.Conversion.RoundTrip.{edge_list_round_trip}
use semadb.Diskstore
use semadb.Diskstore.{MemBucket}
use semadb.Diskstore.Laws.{
  after_delete, after_delete-writable, after_put, after_put-writable, delete-after_delete,
  get-after_delete, get-after_put, get-new_mem_bucket, put-after_put,
}
use semadb.Diskstore.Order.{bytes_eq, bytes_eq_iff, bytes_eq_refl}
use semadb.Shard.ItemCache.Flush.{IsStorable, cleared}
use semadb.Vamana.Node.{
  GraphNode, check_and_clear_dirty, delete_from, node_storable, read_from, write_to,
}

abbrev pub IsNodeId : ℕ → Type 0
IsNodeId id = id < 2 ^ 64

-- the node of this id, with 64-bit edges
abbrev pub IsNodeOf : ℕ → GraphNode → Type 0
IsNodeOf id g = (g.id ≡ id) × All (λ e. e < 2 ^ 64) g.edges

-- different nodes have different keys
key_test :
    (id j : ℕ)
    → IsNodeId id
    → IsNodeId j
    → bytes_eq (node_key id b'e') (node_key j b'e') ≡ (id == j)
key_test id j h k = elim (Bool-cases (id == j)) [
  | inl same ↦ rw ((==_iff id j).0 same, bytes_eq_refl) (ground arith)
  | inr other ↦ elim (Bool-cases (bytes_eq (node_key id b'e') (node_key j b'e'))) [
    | inl equal ↦
        absurd
          (ground (arith, (node_key_injective id b'e' j b'e' h k ((bytes_eq_iff _ _).0 equal)).0))
    | inr differ ↦ differ ∙ sym other
  ]
]

cleared_node :
    (g : GraphNode) (id : ℕ)
    → g.id ≡ id
    → cleared node_storable g ≡ record { id = id; edges = g.edges; is_dirty = false }
unfolding check_and_clear_dirty
cleared_node g id e = elim (Bool-cases g.is_dirty) [
  | inl dirty ↦ ground arith
  | inr clean ↦ ground arith
]

-- The storage of graph nodes keeps what the cache asks of it: on a writable bucket a node whose id and
-- edges have 64 bits is written and deleted without an error, is read back as it is with its flag
-- cleared, and is then not found; no other node's record is touched.
pub node-IsStorable : IsStorable node_storable IsNodeId IsNodeOf
unfolding check_and_clear_dirty read_from write_to delete_from
node-IsStorable = record {
  write_lem = λ id g b known item w. (
    after_put b (node_key id b'e') (edge_list_to_bytes g.edges),
    put-after_put b _ _ w,
    after_put-writable b (node_key id b'e') (edge_list_to_bytes g.edges) ∙ w,
    λ j known'. elim (Bool-cases (id == j)) [
      | inl same ↦
          rw
            (
              read_from,
              get-after_put,
              key_test id j known known',
              same,
              (edge_list_round_trip g.edges item.1).0,
            )
            (ap ok (sym (cleared_node g j (item.0 ∙ (==_iff id j).0 same))))
      | inr other ↦ rw (read_from, get-after_put, key_test id j known known', other) refl
    ],
  );
  delete_from_lem = λ id g b known w. (
    after_delete b (node_key id b'e'),
    delete-after_delete b _ w,
    after_delete-writable b (node_key id b'e') ∙ w,
    λ j known'. elim (Bool-cases (id == j)) [
      | inl same ↦ rw (read_from, get-after_delete, key_test id j known known', same) refl
      | inr other ↦ rw (read_from, get-after_delete, key_test id j known known', other) refl
    ],
  );
  cleared_IsItem = λ id g item. elim (Bool-cases g.is_dirty) [
    | inl dirty ↦ rw dirty item
    | inr clean ↦ rw clean item
  ];
  cleared_twice = λ g. ground arith;
}

pub read_from-new_mem_bucket :
    (id : ℕ) → read_from id (Diskstore.new_mem_bucket false) ≡ err not_found
unfolding read_from
read_from-new_mem_bucket id = rw (read_from, get-new_mem_bucket) refl
