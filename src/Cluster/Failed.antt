-- ===== src/Cluster/Failed.antt =====
-- The points that an update or a deletion did not reach: `curateFailedPoints`, `UpdatePoints` and
-- `DeletePoints` of cluster/actions.go. The request to a shard is a parameter, the ids that it reports
-- or `none` for an error; the answers come in any order, which is an argument. The binary search of
-- the Go library is described by what it returns on a sorted slice: the place of the first item that
-- is not below the target, and whether it is the target.
pub mod Exact
pub mod Unordered
mod Tests
use semadb.Base.{
  Bool, List, Option, [], false, if◌then◌else◌, length, ltb, none, some, suc, true, ℕ, ◌+◌, ◌==◌,
  ◌++◌, ◌∷◌, map,
}
use semadb.Base.Result.{Error, Result, not_found, ok, panic, shard_unavailable}
use semadb.Conversion.{Bytes}
use semadb.Diskstore.Order.{bytes_eq, bytes_lt}
use semadb.Shard.Points.{Point}

pub record FailedPoint : Type 0 where
  pub id : Bytes
  pub message : Error

place_id : Bytes → List Bytes → List Bytes
place_id id [] = id ∷ []
place_id id (x ∷ l) = if bytes_lt x id then x ∷ place_id id l else id ∷ x ∷ l

-- `slices.SortFunc` by `bytes.Compare`
pub sort_ids : List Bytes → List Bytes
unfolding place_id
sort_ids [] = []
sort_ids (id ∷ l) = place_id id (sort_ids l)

-- `slices.BinarySearchFunc` by `bytes.Compare`
pub binary_search : List Bytes → Bytes → ℕ × Bool
binary_search [] id = (0, false)
binary_search (x ∷ l) id =
    let (place, found) = binary_search l id in
    if bytes_lt x id then (suc place, found) else (0, bytes_eq x id)

-- the loop over all ids
collect_failed : Error → List Bytes → List Bytes → List FailedPoint
collect_failed message success_ids [] = []
collect_failed message success_ids (id ∷ ids) =
    let rest = collect_failed message success_ids ids in
    if (binary_search success_ids id).1 then rest else record { id = id; message = message } ∷ rest

-- A negative capacity is a panic of `make`.
pub curate_failed_points : List Bytes → List Bytes → Bool → Result (List FailedPoint)
curate_failed_points all_ids success_ids is_complete_response =
    let message = if is_complete_response then not_found else shard_unavailable in
    let sorted = sort_ids success_ids in
    if ltb (length all_ids) (length success_ids)
    then panic
    else ok (collect_failed message sorted all_ids)

module _ (request : Bytes → Option (List Bytes)) where
  -- the ids that the shards report, in the order in which they answer, and how many answer
  gather : List Bytes → List Bytes × ℕ
  gather [] = ([], 0)
  gather (shard ∷ order) =
      let (ids, count) = gather order in
      elim (request shard) [ none ↦ (ids, count) | some done ↦ (done ++ ids, suc count) ]

  -- the ids that are to be deleted, the shards of the collection, and the order of their answers
  pub delete_points : List Bytes → List Bytes → List Bytes → Result (List FailedPoint)
  delete_points point_ids shard_ids order =
      let (deleted_ids, success_count) = gather order in
      curate_failed_points point_ids deleted_ids (success_count == length shard_ids)

  pub update_points : List Point → List Bytes → List Bytes → Result (List FailedPoint)
  update_points points shard_ids order =
      let (updated_ids, success_count) = gather order in
      curate_failed_points (map (λ p. p.id) points) updated_ids (success_count == length shard_ids)
