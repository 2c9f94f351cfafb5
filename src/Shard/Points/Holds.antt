-- ===== src/Shard/Points/Holds.antt =====
-- What the points bucket holds of a point, after a point is set or deleted: its two index entries and
-- its data.
use semadb.Base.{arith, false, none, refl, some, ℕ, [], ◌<◌, ◌^◌, ◌∙◌, ◌∷◌, ◌≡◌, ◌≢◌}
use semadb.Base.Result.{ok}
use semadb.Conversion.{Bytes, node_key, uint64_to_bytes}
use semadb.Diskstore
use semadb.Diskstore.{MemBucket}
use semadb.Diskstore.Laws.{
  after_delete, after_delete-writable, after_put, after_put-writable, delete-after_delete,
  get-after_delete, get-after_put, put-after_put,
}
use semadb.Diskstore.Order.{bytes_eq, bytes_eq_refl}
use semadb.Shard.Points.{ShardPoint, delete_point, or_empty, point_key, set_data, set_point}
use semadb.Shard.Points.KeysApart.{
  node_point_keys, other_node_key, other_point_key, other_suffix, point_node_keys,
}

-- the bucket that `set_point` leaves
after_data : MemBucket → ℕ → Bytes → MemBucket
after_data b n [] = after_delete b (node_key n b'd')
after_data b n (x ∷ xs) = after_put b (node_key n b'd') (x ∷ xs)

pub after_set : MemBucket → ShardPoint → MemBucket
after_set b p =
    after_data
      (after_put (after_put b (node_key p.node_id b'i') p.id) (point_key p.id b'i')
        (uint64_to_bytes p.node_id))
      p.node_id p.payload

pub after_delete_point : MemBucket → Bytes → ℕ → MemBucket
after_delete_point b u n =
    after_delete (after_delete (after_delete b (point_key u b'i')) (node_key n b'i'))
      (node_key n b'd')

set_data-after_data :
    (b : MemBucket) (n : ℕ) (d : Bytes)
    → b.is_read_only ≡ false
    → set_data b n d ≡ ok (after_data b n d)
unfolding set_data after_data
set_data-after_data b n [] w = delete-after_delete b (node_key n b'd') w
set_data-after_data b n (x ∷ xs) w = put-after_put b (node_key n b'd') (x ∷ xs) w

pub set_point-after_set :
    (b : MemBucket) (p : ShardPoint) → b.is_read_only ≡ false → set_point b p ≡ ok (after_set b p)
unfolding set_point after_set
set_point-after_set b p w =
    let uuid_key = node_key p.node_id b'i' in
    let id_key = point_key p.id b'i' in
    let number = uint64_to_bytes p.node_id in
    let b1 = after_put b uuid_key p.id in
    let w1 : b1.is_read_only ≡ false = after_put-writable b uuid_key p.id ∙ w in
    let b2 = after_put b1 id_key number in
    let w2 : b2.is_read_only ≡ false = after_put-writable b1 id_key number ∙ w1 in
    rw
      (
        put-after_put b uuid_key p.id w,
        put-after_put b1 id_key number w1,
        set_data-after_data b2 p.node_id p.payload w2,
      )
      refl

pub delete_point-after :
    (b : MemBucket) (u : Bytes) (n : ℕ)
    → b.is_read_only ≡ false
    → delete_point b u n ≡ ok (after_delete_point b u n)
unfolding delete_point after_delete_point
delete_point-after b u n w =
    let id_key = point_key u b'i' in
    let uuid_key = node_key n b'i' in
    let b1 = after_delete b id_key in
    let w1 : b1.is_read_only ≡ false = after_delete-writable b id_key ∙ w in
    let b2 = after_delete b1 uuid_key in
    let w2 : b2.is_read_only ≡ false = after_delete-writable b1 uuid_key ∙ w1 in
    rw
      (
        delete-after_delete b id_key w,
        delete-after_delete b1 uuid_key w1,
        delete-after_delete b2 (node_key n b'd') w2,
      )
      refl

after_data-writable :
    (b : MemBucket) (n : ℕ) (d : Bytes) → (after_data b n d).is_read_only ≡ b.is_read_only
unfolding after_data
after_data-writable b n [] = after_delete-writable b (node_key n b'd')
after_data-writable b n (x ∷ xs) = after_put-writable b (node_key n b'd') (x ∷ xs)

pub after_set-writable :
    (b : MemBucket) (p : ShardPoint) → b.is_read_only ≡ false → (after_set b p).is_read_only ≡ false
unfolding after_set
after_set-writable b p w = cc (
  after_data-writable
      (after_put (after_put b (node_key p.node_id b'i') p.id) (point_key p.id b'i')
        (uint64_to_bytes p.node_id))
      p.node_id p.payload,
  after_put-writable (after_put b (node_key p.node_id b'i') p.id) (point_key p.id b'i')
      (uint64_to_bytes p.node_id),
  after_put-writable b (node_key p.node_id b'i') p.id,
  w,
)

-- the data that a bucket holds for a node
unfoldable pub data_of : MemBucket → ℕ → Bytes
data_of b n = or_empty (Diskstore.get b (node_key n b'd'))

data_of-after_data_self : (b : MemBucket) (n : ℕ) (d : Bytes) → data_of (after_data b n d) n ≡ d
unfolding data_of after_data
data_of-after_data_self b n [] = rw (get-after_delete, bytes_eq_refl) refl
data_of-after_data_self b n (x ∷ xs) = rw (get-after_put, bytes_eq_refl) refl

get-after_data :
    (b : MemBucket) (n : ℕ) (d k : Bytes)
    → bytes_eq (node_key n b'd') k ≡ false
    → Diskstore.get (after_data b n d) k ≡ Diskstore.get b k
unfolding after_data
get-after_data b n [] k h = rw (get-after_delete, h) refl
get-after_data b n (x ∷ xs) k h = rw (get-after_put, h) refl

-- the entries of other UUIDs are as they were
pub get-after_set :
    (b : MemBucket) (p : ShardPoint) (u : Bytes)
    → p.id ≢ u
    → Diskstore.get (after_set b p) (point_key u b'i') ≡ Diskstore.get b (point_key u b'i')
unfolding after_set
get-after_set b p u other =
    rw
      (
        get-after_data _ p.node_id p.payload _ (node_point_keys p.node_id b'd' u b'i'),
        get-after_put,
        other_point_key p.id u b'i' other,
        get-after_put,
        node_point_keys p.node_id b'i' u b'i',
      )
      refl

pub get-after_delete_point :
    (b : MemBucket) (w : Bytes) (n : ℕ) (u : Bytes)
    → w ≢ u
    → Diskstore.get (after_delete_point b w n) (point_key u b'i')
      ≡ Diskstore.get b (point_key u b'i')
unfolding after_delete_point
get-after_delete_point b w n u other =
    rw
      (
        get-after_delete,
        node_point_keys n b'd' u b'i',
        get-after_delete,
        node_point_keys n b'i' u b'i',
        get-after_delete,
        other_point_key w u b'i' other,
      )
      refl

pub after_delete_point-writable :
    (b : MemBucket) (w : Bytes) (n : ℕ) → (after_delete_point b w n).is_read_only ≡ b.is_read_only
unfolding after_delete_point
after_delete_point-writable b w n =
    after_delete-writable _ (node_key n b'd')
    ∙ after_delete-writable _ (node_key n b'i')
    ∙ after_delete-writable b (point_key w b'i')

-- the bucket holds a point: both ways between its UUID and its node id, and its data
pub record Holds (b : MemBucket) (p : ShardPoint) : Type 0 where
  pub by_uuid : Diskstore.get b (point_key p.id b'i') ≡ some (uint64_to_bytes p.node_id)
  pub by_node : Diskstore.get b (node_key p.node_id b'i') ≡ some p.id
  pub stored : data_of b p.node_id ≡ p.payload

module _ (b : MemBucket) (p : ShardPoint) (fits : p.node_id < 2 ^ 64) where
  pub after_set-Holds : Holds (after_set b p) p
  unfolding after_set
  after_set-Holds = record {
    by_uuid =
        rw
          (
            get-after_data _ p.node_id p.payload _ (node_point_keys p.node_id b'd' p.id b'i'),
            get-after_put,
            bytes_eq_refl,
          )
          refl;
    by_node =
        rw
          (
            get-after_data _ p.node_id p.payload _
                (other_suffix p.node_id b'd' b'i' fits (omega arith)),
            get-after_put,
            point_node_keys p.id b'i' p.node_id b'i',
            get-after_put,
            bytes_eq_refl,
          )
          refl;
    stored = data_of-after_data_self _ p.node_id p.payload;
  }

  module _ (q : ShardPoint) (q_fits : q.node_id < 2 ^ 64) (other_id : p.id ≢ q.id)
      (other_node : p.node_id ≢ q.node_id) where
    pub after_set-keeps : Holds b q → Holds (after_set b p) q
    unfolding after_set data_of
    after_set-keeps h = record {
      by_uuid =
          rw
            (
              get-after_data _ p.node_id p.payload _ (node_point_keys p.node_id b'd' q.id b'i'),
              get-after_put,
              other_point_key p.id q.id b'i' other_id,
              get-after_put,
              node_point_keys p.node_id b'i' q.id b'i',
            )
            h.by_uuid;
      by_node =
          rw
            (
              get-after_data _ p.node_id p.payload _
                  (other_node_key p.node_id q.node_id b'd' b'i' fits q_fits other_node),
              get-after_put,
              point_node_keys p.id b'i' q.node_id b'i',
              get-after_put,
              other_node_key p.node_id q.node_id b'i' b'i' fits q_fits other_node,
            )
            h.by_node;
      stored =
          rw
            (
              get-after_data _ p.node_id p.payload _
                  (other_node_key p.node_id q.node_id b'd' b'd' fits q_fits other_node),
              get-after_put,
              point_node_keys p.id b'i' q.node_id b'd',
              get-after_put,
              other_node_key p.node_id q.node_id b'i' b'd' fits q_fits other_node,
            )
            h.stored;
    }

    pub after_delete-keeps : Holds b q → Holds (after_delete_point b p.id p.node_id) q
    unfolding after_delete_point data_of
    after_delete-keeps h = record {
      by_uuid =
          rw
            (
              get-after_delete,
              node_point_keys p.node_id b'd' q.id b'i',
              get-after_delete,
              node_point_keys p.node_id b'i' q.id b'i',
              get-after_delete,
              other_point_key p.id q.id b'i' other_id,
            )
            h.by_uuid;
      by_node =
          rw
            (
              get-after_delete,
              other_node_key p.node_id q.node_id b'd' b'i' fits q_fits other_node,
              get-after_delete,
              other_node_key p.node_id q.node_id b'i' b'i' fits q_fits other_node,
              get-after_delete,
              point_node_keys p.id b'i' q.node_id b'i',
            )
            h.by_node;
      stored =
          rw
            (
              get-after_delete,
              other_node_key p.node_id q.node_id b'd' b'd' fits q_fits other_node,
              get-after_delete,
              other_node_key p.node_id q.node_id b'i' b'd' fits q_fits other_node,
              get-after_delete,
              point_node_keys p.id b'i' q.node_id b'd',
            )
            h.stored;
    }

  pub gone_uuid : Diskstore.get (after_delete_point b p.id p.node_id) (point_key p.id b'i') ≡ none
  unfolding after_delete_point
  gone_uuid =
      rw
        (
          get-after_delete,
          node_point_keys p.node_id b'd' p.id b'i',
          get-after_delete,
          node_point_keys p.node_id b'i' p.id b'i',
          get-after_delete,
          bytes_eq_refl,
        )
        refl

  pub gone_node :
      Diskstore.get (after_delete_point b p.id p.node_id) (node_key p.node_id b'i') ≡ none
  unfolding after_delete_point
  gone_node =
      rw
        (
          get-after_delete,
          other_suffix p.node_id b'd' b'i' fits (omega arith),
          get-after_delete,
          bytes_eq_refl,
        )
        refl
