-- ===== src/Cluster/Failed/Tests.antt =====
-- Two shards that answer in one order or the other, and one that does not answer.
use mathlib.Core.List.Perm
use semadb.Base.{List, Option, [], false, if◌then◌else◌, none, refl, some, true, ◌≡◌, ◌∷◌}
use semadb.Base.Result.{not_found, ok, panic, shard_unavailable}
use semadb.Cluster.Failed.{
  binary_search, collect_failed, curate_failed_points, delete_points, gather, place_id, sort_ids,
  update_points,
}
use semadb.Cluster.Failed.Unordered.{failed_points_unordered}
use semadb.Cluster.Failed.Exact.{curate_failed_points_lem, missing}
use semadb.Conversion.{Bytes}
use semadb.Diskstore.Order.{bytes_eq, bytes_lt}

abbrev ids : List Bytes
ids = (1 ∷ []) ∷ (2 ∷ []) ∷ (3 ∷ []) ∷ []

-- the shard `a` has the id 3, the shard `b` the id 1
abbrev request : Bytes → Option (List Bytes)
request shard =
    if bytes_eq shard (b'a' ∷ [])
    then some ((3 ∷ []) ∷ [])
    else if bytes_eq shard (b'b' ∷ [])
    then some ((1 ∷ []) ∷ [])
    else none

abbrev shards : List Bytes
shards = (b'a' ∷ []) ∷ (b'b' ∷ []) ∷ []

all_answer :
    delete_points request ids shards shards ≡ ok (record { id = 2 ∷ []; message = not_found } ∷ [])
unfolding delete_points gather curate_failed_points collect_failed binary_search sort_ids place_id
    bytes_lt
all_answer = refl

-- the same id in two shards
two_successes : curate_failed_points ((1 ∷ []) ∷ []) ((1 ∷ []) ∷ (1 ∷ []) ∷ []) true ≡ panic
unfolding curate_failed_points
two_successes = refl

curate_failed_points_lem_example :
    curate_failed_points ids ((3 ∷ []) ∷ (1 ∷ []) ∷ []) false
    ≡ ok (missing shard_unavailable ((3 ∷ []) ∷ (1 ∷ []) ∷ []) ids)
curate_failed_points_lem_example = curate_failed_points_lem ids ((3 ∷ []) ∷ (1 ∷ []) ∷ []) false

failed_points_unordered_example :
    (delete_points request ids shards ((b'b' ∷ []) ∷ (b'a' ∷ []) ∷ [])
      ≡ delete_points request ids shards shards)
    × (update_points request
          (record { id = 1 ∷ []; payload = [] } ∷ [])
          shards
          ((b'b' ∷ []) ∷ (b'a' ∷ []) ∷ [])
        ≡ update_points request (record { id = 1 ∷ []; payload = [] } ∷ []) shards shards)
failed_points_unordered_example =
    failed_points_unordered request ids (record { id = 1 ∷ []; payload = [] } ∷ []) shards
      ((b'b' ∷ []) ∷ (b'a' ∷ []) ∷ []) (Perm.swap (b'a' ∷ []) (b'b' ∷ []) [])
