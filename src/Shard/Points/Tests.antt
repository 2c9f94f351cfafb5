-- ===== src/Shard/Points/Tests.antt =====
-- The points bucket with two points.
use semadb.Base.{
  Option, arith, false, length, none, refl, some, ℕ, [], ◌==◌, if◌then◌else◌, ◌∷◌, ◌≡◌, ◌≢◌,
}
use semadb.Base.Result.{err, ok, point_does_not_exist}
use semadb.Conversion.{Bytes}
use semadb.Diskstore.{MemBucket, new_mem_bucket}
use semadb.Diskstore.Laws.{new_mem_bucket-writable}
use semadb.Shard.Points.{
  ShardPoint, check_point_exists, delete_point, get_point_by_node_id, get_point_by_uuid, set_point,
}
use semadb.Shard.Points.Holds.{
  Holds, after_delete_point, after_set, after_set-Holds, after_set-writable,
}
use semadb.Shard.Points.Stored.{delete_point_gone, set_point_found}

-- a stand-in for the library's function, which refuses other lengths
abbrev sixteen_bytes : Bytes → Option Bytes
sixteen_bytes b = if length b == 16 then some b else none

sixteen_bytes_lem : (u : Bytes) → length u ≡ 16 → sixteen_bytes u ≡ some u
sixteen_bytes_lem u h = ground arith

abbrev uuid_of : ℕ → Bytes
uuid_of n = n ∷ 0 ∷ 0 ∷ 0 ∷ 0 ∷ 0 ∷ 0 ∷ 0 ∷ 0 ∷ 0 ∷ 0 ∷ 0 ∷ 0 ∷ 0 ∷ 0 ∷ 0 ∷ []

abbrev first : ShardPoint
first = record { point = record { id = uuid_of 1; payload = 7 ∷ [] }; node_id = 2 }

abbrev second : ShardPoint
second = record { point = record { id = uuid_of 2; payload = [] }; node_id = 3 }

abbrev with_second : MemBucket
with_second = after_set (new_mem_bucket false) second

with_second-Holds : Holds with_second second
with_second-Holds = after_set-Holds (new_mem_bucket false) second (omega arith)

other_uuid : first.id ≢ second.id
other_uuid h = ground arith

set_point_found_example :
    (set_point with_second first ≡ ok (after_set with_second first))
    × (get_point_by_uuid (after_set with_second first) (uuid_of 1) ≡ ok first)
    × (get_point_by_node_id sixteen_bytes (after_set with_second first) 2 ≡ ok first)
    × (get_point_by_uuid (after_set with_second first) (uuid_of 2) ≡ ok second)
    × (get_point_by_node_id sixteen_bytes (after_set with_second first) 3 ≡ ok second)
set_point_found_example =
    set_point_found sixteen_bytes sixteen_bytes_lem with_second first second
      (after_set-writable (new_mem_bucket false) second new_mem_bucket-writable) (omega arith) refl
      with_second-Holds (omega arith) refl other_uuid (omega arith)

delete_point_gone_example :
    (delete_point with_second (uuid_of 1) 2 ≡ ok (after_delete_point with_second (uuid_of 1) 2))
    × (get_point_by_uuid (after_delete_point with_second (uuid_of 1) 2) (uuid_of 1)
        ≡ err point_does_not_exist)
    × (get_point_by_node_id sixteen_bytes (after_delete_point with_second (uuid_of 1) 2) 2
        ≡ err point_does_not_exist)
    × (check_point_exists (after_delete_point with_second (uuid_of 1) 2) (uuid_of 1) ≡ false)
    × (get_point_by_uuid (after_delete_point with_second (uuid_of 1) 2) (uuid_of 2) ≡ ok second)
    × (get_point_by_node_id sixteen_bytes (after_delete_point with_second (uuid_of 1) 2) 3
        ≡ ok second)
delete_point_gone_example =
    delete_point_gone sixteen_bytes sixteen_bytes_lem with_second first second
      (after_set-writable (new_mem_bucket false) second new_mem_bucket-writable) (omega arith) refl
      with_second-Holds (omega arith) refl other_uuid (omega arith)
