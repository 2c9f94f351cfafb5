-- ===== src/Cluster/Collections.antt =====
-- The collections of the users: the handlers RPCCreateCollection, RPCDeleteCollection,
-- RPCListCollections, RPCGetCollection and RPCCreateShard of cluster/rpchandlers.go and the requests
-- CreateCollection, ListCollections and GetCollection of cluster/actions.go. A node keeps them in one
-- bucket of its database, which opens without an error and whose transaction is undone on an error; the
-- nodes of the cluster are a function from host names. msgpack and the new UUID are parameters, and
-- so is what the network does (Route).
pub mod Stored
pub mod Found
pub mod Quota
pub mod Sharded
mod Tests
use semadb.Base.{Bool, List, Option, [], if◌then◌else◌, leb, none, some, ℕ, ◌+◌, ◌-◌, ◌++◌, ◌∷◌}
use semadb.Base.Result.{
  Result, collection_exists, err, not_found, ok, other, panic, quota_reached, ◌>>=◌,
}
use semadb.Cluster.Hashing.{rendezvous_hash}
use semadb.Cluster.Route.{Attempt, internal_route, outcome}
use semadb.Conversion.{Bytes}
use semadb.Diskstore.{MemBucket, delete, get, prefix_scan, put}
use semadb.Diskstore.Order.{bytes_eq}
use semadb.Models.{Collection}

-- DBDELIMITER, "/"
abbrev pub delimiter : ℕ
delimiter = 47

abbrev pub collection_key : Bytes → Bytes → Bytes
collection_key user_id collection_id = user_id ++ delimiter ∷ collection_id

abbrev pub user_prefix : Bytes → Bytes
user_prefix user_id = user_id ++ delimiter ∷ []

-- msgpack
pub record Codec : Type 0 where
  pub marshal : Collection → Option Bytes
  pub unmarshal : Bytes → Option Collection

-- the fields of RPCCreateCollectionResponse; both unset is `created`
pub data Created : Type 0 where
  created already_exists quota_is_reached : Created

pub count_key : Bytes → Bytes → ℕ → Result ℕ
count_key k v count = ok (count + 1)

module _ (codec : Codec) where
  -- the transaction of RPCCreateCollection, with the marshalled collection
  pub create_transaction : Collection → Bytes → MemBucket → Result (Created × MemBucket)
  create_transaction col col_bytes b = elim (get b (collection_key col.user_id col.id)) [
    | some v ↦ ok (already_exists, b)
    | none ↦ do
      count ← prefix_scan count_key b (user_prefix col.user_id) 0
      (if leb col.user_plan.max_collections count
          then ok (quota_is_reached, b)
          else (do b' ← put b (collection_key col.user_id col.id) col_bytes; ok (created, b')))
  ]

  pub rpc_create_collection : Collection → MemBucket → Result (Created × MemBucket)
  rpc_create_collection col b = elim (codec.marshal col) [
    | none ↦ err other
    | some col_bytes ↦ create_transaction col col_bytes b
  ]

  pub rpc_delete_collection : Collection → MemBucket → Result (Unit {0} × MemBucket)
  rpc_delete_collection col b = do b' ← delete b (collection_key col.user_id col.id); ok (tt, b')

  append_collection : Bytes → Bytes → List Collection → Result (List Collection)
  append_collection k v cols = elim (codec.unmarshal v) [
    | none ↦ err other
    | some col ↦ ok (cols ++ col ∷ [])
  ]

  pub rpc_list_collections : Bytes → MemBucket → Result (List Collection × MemBucket)
  rpc_list_collections user_id b = do
    cols ← prefix_scan append_collection b (user_prefix user_id) []
    ok (cols, b)

  -- `none` is the field NotFound
  pub rpc_get_collection : Bytes → Bytes → MemBucket → Result (Option Collection × MemBucket)
  rpc_get_collection user_id collection_id b = elim (get b (collection_key user_id collection_id)) [
    | none ↦ ok (none, b)
    | some v ↦ elim (codec.unmarshal v) [ none ↦ err other | some col ↦ ok (some col, b) ]
  ]

  add_shard : Bytes → Collection → Collection
  add_shard shard_id col = record col { shard_ids = col.shard_ids ++ shard_id ∷ [] }

  -- the rest of RPCCreateShard, for the value under the key
  store_shard : Bytes → Bytes → Bytes → MemBucket → Result (Bytes × MemBucket)
  store_shard shard_id key v b = elim (codec.unmarshal v) [
    | none ↦ err other
    | some col ↦ elim (codec.marshal (add_shard shard_id col)) [
      | none ↦ err other
      | some col_bytes ↦ do b' ← put b key col_bytes; ok (shard_id, b')
    ]
  ]

  -- the reply is the new UUID
  pub rpc_create_shard : Bytes → Bytes → Bytes → MemBucket → Result (Bytes × MemBucket)
  rpc_create_shard shard_id user_id collection_id b =
      let key = collection_key user_id collection_id in
      elim (get b key) [ none ↦ err other | some v ↦ store_shard shard_id key v b ]

-- the database of every node
abbrev pub Nodes : Type 0
Nodes = Bytes → MemBucket

-- a handler on the node of a host
pub at_host {κ} :
    {A : Type κ} → Bytes → (MemBucket → Result (A × MemBucket)) → Nodes → Result (A × Nodes)
at_host host handler nodes = do
  (reply, b') ← handler (nodes host)
  ok (reply, λ h. if bytes_eq host h then b' else nodes h)

-- A node: its host name, the servers it knows, and what its requests to another server meet.
pub record Node : Type 0 where
  pub my_hostname : Bytes
  pub servers : List Bytes
  pub attempts : List Attempt

module _ (sum64_string : Bytes → ℕ) (codec : Codec) where
  -- `RendezvousHash(userId, c.Servers, 1)[0]`, which panics without a server
  destination : Node → Bytes → Option Bytes
  destination c user_id = elim (rendezvous_hash sum64_string user_id c.servers 1) [
    | [] ↦ none
    | dest ∷ rest ↦ some dest
  ]

  -- the start of every handler: it is routed to its destination, if that is another node
  pub call :
      {A : Type 0}
      → Node
      → Bytes
      → A
      → (MemBucket → Result (A × MemBucket))
      → Nodes
      → Result A × Nodes
  call c user_id blank handler nodes = elim (destination c user_id) [
    | none ↦ (panic, nodes)
    | some dest ↦
        if bytes_eq dest c.my_hostname
        then outcome (at_host dest handler) nodes
        else internal_route (at_host dest handler) blank c.attempts nodes
  ]

  created_or_error : Created → Result (Unit {0})
  created_or_error created = ok tt
  created_or_error already_exists = err collection_exists
  created_or_error quota_is_reached = err quota_reached

  pub create_collection : Node → Collection → Nodes → Result (Unit {0}) × Nodes
  create_collection c col nodes =
      let (reply, nodes') = call c col.user_id created (rpc_create_collection codec col) nodes in
      (reply >>= created_or_error, nodes')

  pub list_collections : Node → Bytes → Nodes → Result (List Collection) × Nodes
  list_collections c user_id nodes = call c user_id [] (rpc_list_collections codec user_id) nodes

  found_or_error : Option Collection → Result Collection
  found_or_error none = err not_found
  found_or_error (some col) = ok col

  -- a blank reply holds a blank collection, and NotFound is not set
  pub get_collection : Collection → Node → Bytes → Bytes → Nodes → Result Collection × Nodes
  get_collection blank c user_id collection_id nodes =
      let (reply, nodes') =
        call c user_id (some blank) (rpc_get_collection codec user_id collection_id) nodes in
      (reply >>= found_or_error, nodes')
