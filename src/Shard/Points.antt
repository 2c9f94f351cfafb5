-- ===== src/Shard/Points.antt =====
-- shard/points.go: the points bucket, which maps a point's UUID to its node id and a node id to the
-- UUID and the data of its point. A UUID is sixteen bytes. Data that is absent (`nil`) is the empty
-- slice, which is all that the program asks of it.
pub mod KeysApart
pub mod Holds
pub mod Stored
mod Tests
use semadb.Base.{Bool, List, Option, false, none, some, true, ℕ, [], ◌++◌, if◌then◌else◌, ◌∷◌}
use semadb.Base.Result.{Result, err, ok, or_panic, other, point_does_not_exist, ◌>>=◌}
use semadb.Conversion.{Bytes, bytes_to_uint64, node_key, uint64_to_bytes}
use semadb.Diskstore
use semadb.Diskstore.{MemBucket}

-- models.Point
pub record Point : Type 0 where
  pub id : Bytes
  pub payload : Bytes

pub record ShardPoint : Type 0 where
  pub point : Point
  pub open point use *
  pub node_id : ℕ

-- 'p', the UUID, the suffix
pub point_key : Bytes → ℕ → Bytes
point_key id suffix = b'p' ∷ (id ++ suffix ∷ [])

set_data : MemBucket → ℕ → Bytes → Result MemBucket
set_data b node_id [] = Diskstore.delete b (node_key node_id b'd')
set_data b node_id (x ∷ xs) = Diskstore.put b (node_key node_id b'd') (x ∷ xs)

pub set_point : MemBucket → ShardPoint → Result MemBucket
set_point bucket p = do
  b ← Diskstore.put bucket (node_key p.node_id b'i') p.id
  b' ← Diskstore.put b (point_key p.id b'i') (uint64_to_bytes p.node_id)
  set_data b' p.node_id p.payload

abbrev pub is_some {ℓ} : {A : Type ℓ} → Option A → Bool
is_some none = false
is_some (some a) = true

unfoldable pub check_point_exists : MemBucket → Bytes → Bool
check_point_exists bucket point_id = is_some (Diskstore.get bucket (point_key point_id b'i'))

pub get_point_node_id_by_uuid : MemBucket → Bytes → Result ℕ
get_point_node_id_by_uuid bucket point_id = elim (Diskstore.get bucket (point_key point_id b'i')) [
  | none ↦ err point_does_not_exist
  | some bytes ↦ or_panic (bytes_to_uint64 bytes)
]

abbrev or_empty : Option Bytes → Bytes
or_empty none = []
or_empty (some v) = v

pub get_point_by_uuid : MemBucket → Bytes → Result ShardPoint
get_point_by_uuid bucket point_id = do
  node_id ← get_point_node_id_by_uuid bucket point_id
  ok (record {
    point = record {
      id = point_id;
      payload = or_empty (Diskstore.get bucket (node_key node_id b'd'));
    };
    node_id = node_id;
  })

-- `uuid.FromBytes` of github.com/google/uuid: `none` is its error
module _ (uuid_from_bytes : Bytes → Option Bytes) where
  pub get_point_by_node_id : MemBucket → ℕ → Result ShardPoint
  get_point_by_node_id bucket node_id = elim (Diskstore.get bucket (node_key node_id b'i')) [
    | none ↦ err point_does_not_exist
    | some bytes ↦ elim (uuid_from_bytes bytes) [
      | none ↦ err other
      | some point_id ↦ ok (record {
        point = record {
          id = point_id;
          payload = or_empty (Diskstore.get bucket (node_key node_id b'd'));
        };
        node_id = node_id;
      })
    ]
  ]

pub delete_point : MemBucket → Bytes → ℕ → Result MemBucket
delete_point bucket point_id node_id = do
  b ← Diskstore.delete bucket (point_key point_id b'i')
  b' ← Diskstore.delete b (node_key node_id b'i')
  Diskstore.delete b' (node_key node_id b'd')
