-- ===== src/Cluster/Collections/Quota.antt =====
-- The three answers to a request for a new collection.
use semadb.Base.{
  Bool-cases, Option-cases, arith, false, inl, inr, leb, length, none, refl, some, suc, ℕ, ◌≡◌, ◌≤◌,
}
use semadb.Base.Result.{ok}
use semadb.Cluster.Collections.{
  Codec, Created, already_exists, collection_key, create_transaction, created, quota_is_reached,
  rpc_create_collection, user_prefix,
}
use semadb.Cluster.Collections.Stored.{entries_of, key_of_user, length-select_new, scan_count}
use semadb.Conversion.{Bytes}
use semadb.Diskstore.{MemBucket, get}
use semadb.Diskstore.Laws.{after_put, after_put-entries, put-after_put}
use semadb.Diskstore.Scan.{get-entries, starts_with}
use semadb.Models.{Collection}

abbrev pub key_of : Collection → Bytes
key_of col = collection_key col.user_id col.id

-- how many collections of the user the bucket has
abbrev pub owned : Collection → MemBucket → ℕ
owned col b = length (entries_of col.user_id b)

-- the answers, with what they say of the bucket before and after
pub data Answers (col : Collection) (col_bytes : Bytes) (b : MemBucket)
    : Created → MemBucket → Type 0 where
  exists : (v : Bytes) → get b (key_of col) ≡ some v → Answers col col_bytes b already_exists b
  full :
      get b (key_of col) ≡ none
      → col.user_plan.max_collections ≤ owned col b
      → Answers col col_bytes b quota_is_reached b
  added :
      (b' : MemBucket)
      → get b (key_of col) ≡ none
      → owned col b' ≡ suc (owned col b)
      → owned col b' ≤ col.user_plan.max_collections
      → b' ≡ after_put b (key_of col) col_bytes
      → Answers col col_bytes b created b'

owned-after_put :
    (col : Collection) (v : Bytes) (b : MemBucket)
    → get b (key_of col) ≡ none
    → owned col (after_put b (key_of col) v) ≡ suc (owned col b)
owned-after_put col v b fresh = rw (after_put-entries b (key_of col) v) (
    length-select_new (starts_with (user_prefix col.user_id)) (key_of col) v b.entries
      (key_of_user col.user_id col.id) (rw (← get-entries b (key_of col)) fresh))

-- On a node whose bucket is writable, a request for a new collection that msgpack can encode is
-- answered in one of three ways: that it exists, and nothing changes, if its key is in the bucket; that
-- the quota is reached, and nothing changes, if it is not but the bucket has as many keys with the prefix
-- of the user as the plan allows; and else that it is created, when the bucket has the collection
-- under its key and one key of the user more, which are still no more than the plan allows.
pub rpc_create_collection_lem :
    (codec : Codec) (col : Collection) (col_bytes : Bytes) (b : MemBucket)
    → codec.marshal col ≡ some col_bytes
    → b.is_read_only ≡ false
    → (reply : Created) × (b' : MemBucket) × (rpc_create_collection codec col b ≡ ok (reply, b'))
      × Answers col col_bytes b reply b'
unfolding rpc_create_collection create_transaction
rpc_create_collection_lem codec col col_bytes b encodes w =
    elim (Option-cases (get b (key_of col))) [
      | inr (v, found) ↦ (
        already_exists,
        b,
        rw (rpc_create_collection, encodes, create_transaction, found) refl,
        exists v found,
      )
      | inl fresh ↦ elim (Bool-cases (leb col.user_plan.max_collections (owned col b))) [
        | inl reached ↦ (
          quota_is_reached,
          b,
          rw
              (
                rpc_create_collection,
                encodes,
                create_transaction,
                fresh,
                scan_count b col.user_id,
                reached,
              )
              refl,
          full fresh (ground arith),
        )
        | inr free ↦
            let b' = after_put b (key_of col) col_bytes in
            let more = owned-after_put col col_bytes b fresh in
            (
              created,
              b',
              rw
                  (
                    rpc_create_collection,
                    encodes,
                    create_transaction,
                    fresh,
                    scan_count b col.user_id,
                    free,
                    put-after_put b (key_of col) col_bytes w,
                  )
                  refl,
              added b' fresh more (ground arith) refl,
            )
      ]
    ]
