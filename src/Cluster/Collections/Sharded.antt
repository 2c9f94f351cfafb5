-- ===== src/Cluster/Collections/Sharded.antt =====
-- A new shard of a collection: RPCCreateShard, and what RPCGetCollection reads after it.
use semadb.Base.{Option-cases, arith, inl, inr, [], ap, false, refl, some, ◌++◌, ◌≡◌, ◌∷◌, ◌∙◌}
use semadb.Base.Result.{ok, ok_injective}
use semadb.Cluster.Collections.{
  Codec, add_shard, collection_key, rpc_create_shard, rpc_get_collection, store_shard,
}
use semadb.Conversion.{Bytes}
use semadb.Diskstore.{MemBucket, get}
use semadb.Diskstore.Laws.{after_put, get-after_put, put-after_put}
use semadb.Diskstore.Order.{bytes_eq, bytes_eq_iff}
use semadb.Models.{Collection}

module _ (codec : Codec) (shard_id user_id id : Bytes) (col : Collection) where
  -- a collection that is read stands under its key
  read_parts :
      (b : MemBucket)
      → rpc_get_collection codec user_id id b ≡ ok (some col, b)
      → (raw : Bytes) × (get b (collection_key user_id id) ≡ some raw)
        × (codec.unmarshal raw ≡ some col)
  unfolding rpc_get_collection
  read_parts b read = elim (Option-cases (get b (collection_key user_id id))) [
    | inl missing ↦ let blank = rw (rpc_get_collection, missing) at read in absurd (ground arith)
    | inr (raw, found) ↦ elim (Option-cases (codec.unmarshal raw)) [
      | inl garbled ↦
          let failed = rw (rpc_get_collection, found, garbled) at read in absurd (ground arith)
      | inr (c, decoded) ↦
          let same = rw (rpc_get_collection, found, decoded) at read in
          (raw, found, decoded ∙ ap (λ p. p.0) (ok_injective (some c, b) (some col, b) same))
    ]
  ]

  -- On a writable node, let a collection be read, and let msgpack decode the collection with a new shard
  -- from what it encodes it to. Then the request for a new shard succeeds with its id, the collection is
  -- then read with that id at the end of its shards and nothing else changed, and what the bucket
  -- has under every other key is as before.
  pub rpc_create_shard_lem :
      (b : MemBucket) (v : Bytes)
      → b.is_read_only ≡ false
      → rpc_get_collection codec user_id id b ≡ ok (some col, b)
      → codec.marshal (record col { shard_ids = col.shard_ids ++ shard_id ∷ [] }) ≡ some v
      → codec.unmarshal v ≡ some (record col { shard_ids = col.shard_ids ++ shard_id ∷ [] })
      → (b' : MemBucket) × (rpc_create_shard codec shard_id user_id id b ≡ ok (shard_id, b'))
        × (rpc_get_collection codec user_id id b'
            ≡ ok (some (record col { shard_ids = col.shard_ids ++ shard_id ∷ [] }), b'))
        × ((j : Bytes) → bytes_eq (collection_key user_id id) j ≡ false → get b' j ≡ get b j)
  unfolding rpc_create_shard store_shard add_shard rpc_get_collection
  rpc_create_shard_lem b v w read encodes decodes =
      let (raw, found, decoded) = read_parts b read in
      let key = collection_key user_id id in
      let stored : get (after_put b key v) key ≡ some v =
        get-after_put b key v key ∙ rw ((bytes_eq_iff key key).1 refl) refl in
      (
        after_put b key v,
        rw (rpc_create_shard, found, store_shard, decoded, encodes, put-after_put b key v w) refl,
        rw (rpc_get_collection, stored, decodes) refl,
        λ j other. get-after_put b key v j ∙ rw other refl,
      )
