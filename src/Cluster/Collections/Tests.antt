-- ===== src/Cluster/Collections/Tests.antt =====
-- Two nodes of a cluster: one creates a collection on the other, and finds it there.
use semadb.Base.{Option, ◌+◌, ◌⊎◌, List, [], arith, false, refl, some, true, ℕ, ◌≡◌, ◌∷◌}
use semadb.Base.Assoc.{insert, lookup}
use semadb.Base.Result.{Result, collection_exists, err, ok, quota_reached}
use semadb.Cluster.Collections.{
  rpc_create_shard, collection_key, rpc_get_collection, Codec, Created, Node, Nodes, at_host, call,
  create_collection, create_transaction, count_key, created_or_error, destination, get_collection,
  rpc_create_collection, append_collection, list_collections, rpc_list_collections,
}
use semadb.Cluster.Collections.Found.{created_collection_found}
use semadb.Cluster.Collections.Quota.{Answers, rpc_create_collection_lem}
use semadb.Cluster.Collections.Sharded.{rpc_create_shard_lem}
use semadb.Cluster.Hashing.{place, rendezvous_hash, score_servers, sort_scores}
use semadb.Cluster.Route.{Attempt, after, answered, internal_route, outcome, shutdown}
use semadb.Cluster.Route.Answered.{AllShut, internal_route_lem}
use semadb.Conversion.{Bytes}
use semadb.Diskstore.{MemBucket, get, prefix_loop, prefix_scan, put}
use semadb.Diskstore.Order.{bytes_eq}
use semadb.Models.{Collection}

abbrev collection : ℕ → Bytes → Collection
collection quota name = record {
  user_id = 117 ∷ [];
  id = name;
  replicas = 0;
  timestamp = 0;
  created_at = 0;
  shard_ids = [];
  user_plan = record {
    name = [];
    max_collections = quota;
    max_collection_point_count = 10;
    max_point_size = 10;
    shard_backup_frequency = 0;
    shard_backup_count = 0;
  };
  index_schema = [];
}

-- an encoding of the names, for the collections with a quota of one
abbrev codec : Codec
codec = record { marshal = λ col. some col.id; unmarshal = λ v. some (collection 1 v) }

abbrev host_a : Bytes
host_a = 97 ∷ []

abbrev host_b : Bytes
host_b = 98 ∷ []

abbrev node : Bytes → List Attempt → Node
node host attempts = record {
  my_hostname = host;
  servers = host_a ∷ host_b ∷ [];
  attempts = attempts;
}

-- every server has the same score, so that the first is chosen
abbrev constant_hash : Bytes → ℕ
constant_hash key = 0

abbrev blank_nodes : Nodes
blank_nodes host = record { entries = []; is_read_only = false }

abbrev col_x : Collection
col_x = collection 1 (120 ∷ [])

-- the node `b` sends its request to the node `a`, at the second attempt
abbrev after_create : Result (Unit {0}) × Nodes
after_create =
    create_collection constant_hash codec (node host_b (shutdown false ∷ answered ∷ [])) col_x
      blank_nodes

created_on_a : after_create.0 ≡ ok tt
unfolding create_collection call destination internal_route after outcome at_host
    rpc_create_collection create_transaction created_or_error rendezvous_hash score_servers
    sort_scores place get put prefix_scan prefix_loop insert lookup count_key
created_on_a = refl

abbrev other_user : Collection
other_user = record col_x { user_id = 117 ∷ 47 ∷ 118 ∷ [] }

-- A second collection is beyond the plan, the same again is refused, and the first is listed. A user whose
-- id continues behind the delimiter shares the prefix, and its collection is listed too.
later_requests :
    ((create_collection constant_hash codec
        (node host_a [])
        (collection 1 (121 ∷ []))
        after_create.1).0
      ≡ err quota_reached)
    × ((create_collection constant_hash codec (node host_a []) col_x after_create.1).0
        ≡ err collection_exists)
    × ((list_collections constant_hash codec (node host_a []) (117 ∷ []) after_create.1).0
        ≡ ok (col_x ∷ []))
    × ((list_collections constant_hash codec
          (node host_a [])
          (117 ∷ [])
          (create_collection constant_hash codec (node host_a []) other_user blank_nodes).1).0
        ≡ ok (col_x ∷ []))
unfolding list_collections rpc_list_collections append_collection create_collection call destination
    internal_route after outcome at_host rpc_create_collection create_transaction created_or_error
    rendezvous_hash score_servers sort_scores place get put prefix_scan prefix_loop insert lookup
    count_key
later_requests = (refl, refl, refl, refl)

created_collection_found_example :
    (get_collection constant_hash codec col_x
      (node host_b (answered ∷ []))
      (117 ∷ [])
      (120 ∷ [])
      after_create.1).0
    ≡ ok col_x
created_collection_found_example =
    created_collection_found constant_hash codec (node host_b (shutdown false ∷ answered ∷ []))
      (node host_b (answered ∷ [])) col_x col_x blank_nodes (λ v e. ground arith) refl (λ h. h) tt
      created_on_a

abbrev writable : MemBucket
writable = record { entries = []; is_read_only = false }

rpc_create_collection_lem_example :
    (reply : Created) × (b' : MemBucket) × (rpc_create_collection codec col_x writable
      ≡ ok (reply, b'))
    × Answers col_x (120 ∷ []) writable reply b'
rpc_create_collection_lem_example =
    rpc_create_collection_lem codec col_x (120 ∷ []) writable refl refl

-- a handler that counts its calls, behind a connection that is shut down twice
abbrev count_calls : ℕ → Result (ℕ × ℕ)
count_calls n = ok (n, n + 1)

internal_route_lem_example :
    ((internal_route count_calls 7 (shutdown false ∷ shutdown true ∷ []) 0).0 ≡ ok 7
      → ((s₀ : ℕ) × (count_calls s₀
            ≡ ok (7, (internal_route count_calls 7 (shutdown false ∷ shutdown true ∷ []) 0).1)))
        ⊎ AllShut (shutdown false ∷ shutdown true ∷ []))
    × (AllShut (shutdown false ∷ shutdown true ∷ [])
        → (internal_route count_calls 7 (shutdown false ∷ shutdown true ∷ []) 0).0 ≡ ok 7)
internal_route_lem_example =
    internal_route_lem count_calls 7 7 (shutdown false ∷ shutdown true ∷ []) 0

-- an encoding of the first shard, for one collection
abbrev decode_shard : Bytes → Option Collection
decode_shard [] = some col_x
decode_shard (n ∷ l) = some (record col_x { shard_ids = (n ∷ l) ∷ [] })

abbrev first_shard : List Bytes → Option Bytes
first_shard [] = some []
first_shard (s ∷ l) = some s

abbrev shard_codec : Codec
shard_codec = record { marshal = λ col. first_shard col.shard_ids; unmarshal = decode_shard }

abbrev with_x : MemBucket
with_x = record { entries = (117 ∷ 47 ∷ 120 ∷ [], []) ∷ []; is_read_only = false }

x_read : rpc_get_collection shard_codec (117 ∷ []) (120 ∷ []) with_x ≡ ok (some col_x, with_x)
unfolding rpc_get_collection get lookup
x_read = refl

rpc_create_shard_lem_example :
    (b' : MemBucket) × (rpc_create_shard shard_codec (9 ∷ []) (117 ∷ []) (120 ∷ []) with_x
      ≡ ok (9 ∷ [], b'))
    × (rpc_get_collection shard_codec (117 ∷ []) (120 ∷ []) b'
        ≡ ok (some (record col_x { shard_ids = (9 ∷ []) ∷ [] }), b'))
    × ((j : Bytes)
        → bytes_eq (collection_key (117 ∷ []) (120 ∷ [])) j ≡ false
        → get b' j ≡ get with_x j)
rpc_create_shard_lem_example =
    rpc_create_shard_lem shard_codec (9 ∷ []) (117 ∷ []) (120 ∷ []) col_x with_x (9 ∷ []) refl
      x_read refl refl
