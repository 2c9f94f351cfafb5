-- ===== src/Shard/Points/Stored.antt =====
-- A point that is set is found by its UUID and by its node id, a deleted one by neither, and both
-- leave every other point as it was.
use semadb.Base.{Option, arith, false, length, none, some, true, ◌<◌, ◌^◌, ◌≡◌, ◌≢◌}
use semadb.Base.Result.{err, ok, point_does_not_exist}
use semadb.Conversion.{Bytes, node_key}
use semadb.Conversion.RoundTrip.{uint64-bytes}
use semadb.Diskstore
use semadb.Diskstore.{MemBucket}
use semadb.Shard.Points.{
  point_key, ShardPoint, check_point_exists, delete_point, get_point_by_node_id, get_point_by_uuid,
  get_point_node_id_by_uuid, or_empty, set_point,
}
use semadb.Shard.Points.Holds.{
  Holds, after_delete-keeps, after_delete_point, after_set, after_set-Holds, after_set-keeps,
  data_of, delete_point-after, gone_node, gone_uuid, set_point-after_set,
}

pub get_point_by_uuid-Holds :
    (b : MemBucket) (p : ShardPoint)
    → p.node_id < 2 ^ 64
    → Holds b p
    → get_point_by_uuid b p.id ≡ ok p
unfolding get_point_by_uuid get_point_node_id_by_uuid data_of
get_point_by_uuid-Holds b p fits h =
    let by_node : or_empty (Diskstore.get b (node_key p.node_id b'd')) ≡ p.payload = h.stored in
    ground (arith, uint64-bytes p.node_id fits)

pub get_point_by_uuid-none :
    (b : MemBucket) (u : Bytes)
    → Diskstore.get b (point_key u b'i') ≡ none
    → get_point_by_uuid b u ≡ err point_does_not_exist
unfolding get_point_by_uuid get_point_node_id_by_uuid
get_point_by_uuid-none b u h = ground arith

-- What a bucket holds is what the two reads return.
Holds-found :
    (uuid_from_bytes : Bytes → Option Bytes) (b : MemBucket) (p : ShardPoint)
    → uuid_from_bytes p.id ≡ some p.id
    → p.node_id < 2 ^ 64
    → Holds b p
    → (get_point_by_uuid b p.id ≡ ok p)
      × (get_point_by_node_id uuid_from_bytes b p.node_id ≡ ok p)
      × (check_point_exists b p.id ≡ true)
unfolding get_point_by_uuid get_point_by_node_id get_point_node_id_by_uuid check_point_exists
    data_of
Holds-found uuid_from_bytes b p law fits h =
    let by_node : or_empty (Diskstore.get b (node_key p.node_id b'd')) ≡ p.payload = h.stored in
    (ground (arith, uint64-bytes p.node_id fits), ground arith, ground arith)

module _ (uuid_from_bytes : Bytes → Option Bytes)
    (uuid_law : (u : Bytes) → length u ≡ 16 → uuid_from_bytes u ≡ some u) (b : MemBucket)
    (p q : ShardPoint) (writable : b.is_read_only ≡ false) (fits : p.node_id < 2 ^ 64)
    (sized : length p.id ≡ 16) (q_held : Holds b q) (q_fits : q.node_id < 2 ^ 64)
    (q_sized : length q.id ≡ 16) (other_id : p.id ≢ q.id) (other_node : p.node_id ≢ q.node_id) where
  -- In a writable bucket that holds a point `q` of another UUID and another node id, a point `p` is
  -- set without an error, is then found, whole, by its UUID and by its node id, and so is `q`.
  -- (Node ids are 64-bit, UUIDs have sixteen bytes, and those `uuid.FromBytes` gives back.)
  pub set_point_found :
      (set_point b p ≡ ok (after_set b p))
      × (get_point_by_uuid (after_set b p) p.id ≡ ok p)
      × (get_point_by_node_id uuid_from_bytes (after_set b p) p.node_id ≡ ok p)
      × (get_point_by_uuid (after_set b p) q.id ≡ ok q)
      × (get_point_by_node_id uuid_from_bytes (after_set b p) q.node_id ≡ ok q)
  set_point_found =
      let found_p =
        Holds-found uuid_from_bytes (after_set b p) p (uuid_law p.id sized) fits
          (after_set-Holds b p fits) in
      let found_q =
        Holds-found uuid_from_bytes (after_set b p) q (uuid_law q.id q_sized) q_fits
          (after_set-keeps b p fits q q_fits other_id other_node q_held) in
      (set_point-after_set b p writable, found_p.0, found_p.1, found_q.0, found_q.1)

  -- From a writable bucket that holds a point `q` of another UUID and another node id, a point `p` is
  -- deleted without an error and is then found neither by its UUID nor by its node id, while `q` is
  -- found, whole, by both. (Node ids are
  -- 64-bit, UUIDs have sixteen bytes, and those `uuid.FromBytes` gives back.)
  pub delete_point_gone :
      (delete_point b p.id p.node_id ≡ ok (after_delete_point b p.id p.node_id))
      × (get_point_by_uuid (after_delete_point b p.id p.node_id) p.id ≡ err point_does_not_exist)
      × (get_point_by_node_id uuid_from_bytes (after_delete_point b p.id p.node_id) p.node_id
          ≡ err point_does_not_exist)
      × (check_point_exists (after_delete_point b p.id p.node_id) p.id ≡ false)
      × (get_point_by_uuid (after_delete_point b p.id p.node_id) q.id ≡ ok q)
      × (get_point_by_node_id uuid_from_bytes (after_delete_point b p.id p.node_id) q.node_id
          ≡ ok q)
  unfolding get_point_by_uuid get_point_by_node_id get_point_node_id_by_uuid check_point_exists
  delete_point_gone =
      let found_q =
        Holds-found uuid_from_bytes (after_delete_point b p.id p.node_id) q (uuid_law q.id q_sized)
          q_fits (after_delete-keeps b p fits q q_fits other_id other_node q_held) in
      (
        delete_point-after b p.id p.node_id writable,
        ground (arith, gone_uuid b p fits),
        ground (arith, gone_node b p fits),
        ground (arith, gone_uuid b p fits),
        found_q.0,
        found_q.1,
      )
