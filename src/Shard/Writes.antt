-- ===== src/Shard/Writes.antt =====
-- shard/shard.go: the requests that change a shard: insertions, updates and deletions of points, with
-- the point count. A shard has two buckets of its own and the indexes of its collection, which a
-- request changes in one transaction. The dispatch of the changes to the indexes and the encoding of
-- msgpack are parameters. The points of a request pass one after the other; the dispatch, which runs
-- beside them on buckets of its own, is taken to run behind them, so that where both fail the model
-- has the points' error, and the program the one that comes first. The cache of a transaction belongs to
-- the indexes. An int is its 64-bit pattern. Go leaves the order of a set of ids open.
pub mod Tracked
pub mod Stored
pub mod Refused
pub mod Picked
pub mod Removed
pub mod Deleted
pub mod Merged
mod Tests
use semadb.Base.{
  Bool, List, Option, [], false, if◌then◌else◌, leb, length, ltb, none, some, true, ℕ, ◌%◌, ◌+◌,
  ◌-◌, ◌||◌, ◌^◌, ◌++◌, ◌∷◌,
}
use semadb.Base.Assoc.{insert, remove}
use semadb.Base.Result.{
  Error, Result, duplicate_point, err, negative_count, ok, or_panic, other, panic,
  point_does_not_exist, point_exists, ◌>>=◌,
}
use semadb.Conversion.{Bytes, bytes_to_uint64, uint64_to_bytes}
use semadb.Diskstore
use semadb.Diskstore.{MemBucket}
use semadb.Diskstore.Order.{bytes_eq, bytes_key}
use semadb.Shard.IdCounter
use semadb.Shard.IdCounter.{IdCounter, free_id, new_id_counter, next_id}
use semadb.Shard.Points.{
  Point, ShardPoint, check_point_exists, delete_point, get_point_by_uuid, set_point,
}

-- "pointCount", "freeNodeIds" and "nextFreeNodeId"
abbrev pub point_count_key : Bytes
point_count_key = b'p' ∷ b'o' ∷ b'i' ∷ b'n' ∷ b't' ∷ b'C' ∷ b'o' ∷ b'u' ∷ b'n' ∷ b't' ∷ []

abbrev pub free_node_ids_key : Bytes
free_node_ids_key = b'f' ∷ b'r' ∷ b'e' ∷ b'e' ∷ b'N' ∷ b'o' ∷ b'd' ∷ b'e' ∷ b'I' ∷ b'd' ∷ b's' ∷ []

abbrev pub next_free_node_id_key : Bytes
next_free_node_id_key =
    b'n' ∷ b'e' ∷ b'x' ∷ b't' ∷ b'F' ∷ b'r' ∷ b'e' ∷ b'e' ∷ b'N' ∷ b'o' ∷ b'd' ∷ b'e' ∷ b'I' ∷ b'd'
    ∷ []

-- "_delete"
abbrev pub delete_value : Bytes
delete_value = b'_' ∷ b'd' ∷ b'e' ∷ b'l' ∷ b'e' ∷ b't' ∷ b'e' ∷ []

-- the count of `Info`
unfoldable pub stored_count : MemBucket → Result ℕ
stored_count b = elim (Diskstore.get b point_count_key) [
  | none ↦ ok 0
  | some count_bytes ↦ or_panic (bytes_to_uint64 count_bytes)
]

-- `change` and the sum are ints, which are negative from 2 ^ 63 on
pub change_point_count : MemBucket → ℕ → Result MemBucket
change_point_count b change = do
  count ← stored_count b
  let new_count = (count + change) % 2 ^ 64
  (if leb (2 ^ 63) new_count
      then err negative_count
      else Diskstore.put b point_count_key (uint64_to_bytes new_count))

-- `-n` as an int
unfoldable pub minus : ℕ → ℕ
minus n = (2 ^ 64 - n) % 2 ^ 64

-- the buckets of a shard, and its indexes
pub record Shard (I : Type 0) : Type 0 where
  pub points : MemBucket
  pub internal : MemBucket
  pub indexes : I

-- index.IndexPointChange
pub record IndexPointChange : Type 0 where
  pub node_id : ℕ
  pub previous_data : Bytes
  pub new_data : Bytes

-- A write transaction of a store that rolls back when the function that it is given fails: bbolt's
-- `Update` does so by its documentation. The store in memory (diskstore/memstore.go) does not; for it,
-- only the outcome and the shard after a success are those of this definition.
pub transaction : {A I : Type 0} → Shard I → Result (A × Shard I) → Result A × Shard I
transaction s (ok (a, s')) = (ok a, s')
transaction s (err e) = (err e, s)
transaction s panic = (panic, s)

unfoldable pub has_id : Bytes → List Point → Bool
has_id id [] = false
has_id id (p ∷ points) = bytes_eq p.id id || has_id id points

-- the check for duplicate ids
unfoldable pub has_duplicates : List Point → Bool
has_duplicates [] = false
has_duplicates (p ∷ points) = has_id p.id points || has_duplicates points

-- the transformation of one point of an insertion
pub insert_one : MemBucket → IdCounter → Point → Result (IndexPointChange × MemBucket × IdCounter)
insert_one b counter point = if check_point_exists b point.id then err point_exists else (do
  let (id, counter') = next_id counter
  b' ← set_point b (record { point = point; node_id = id })
  ok (record { node_id = id; previous_data = []; new_data = point.payload }, b', counter'))

pub insert_all :
    MemBucket → IdCounter → List Point → Result (List IndexPointChange × MemBucket × IdCounter)
insert_all b counter [] = ok ([], b, counter)
insert_all b counter (point ∷ points) = do
  (change, b', counter') ← insert_one b counter point
  (changes, b'', counter'') ← insert_all b' counter' points
  ok (change ∷ changes, b'', counter'')

-- the transformation of one id of a deletion: an id without a point is skipped
pub delete_found :
    MemBucket
    → IdCounter
    → Bytes
    → Result ShardPoint
    → Result (Option IndexPointChange × MemBucket × IdCounter)
delete_found b counter id (err point_does_not_exist) = ok (none, b, counter)
delete_found b counter id (err e) = err e
delete_found b counter id panic = panic
delete_found b counter id (ok sp) = do
  b' ← delete_point b id sp.node_id
  let change : IndexPointChange = record {
    node_id = sp.node_id;
    previous_data = sp.payload;
    new_data = [];
  }
  ok (some change, b', free_id counter sp.node_id)

pub delete_one :
    MemBucket → IdCounter → Bytes → Result (Option IndexPointChange × MemBucket × IdCounter)
delete_one b counter id = delete_found b counter id (get_point_by_uuid b id)

-- what a transformation adds for a point that is not skipped
abbrev pub add_some {ℓ} : {A : Type ℓ} → Option A → List A → List A
add_some none l = l
add_some (some a) l = a ∷ l

abbrev pub id_if : Option IndexPointChange → Bytes → List Bytes → List Bytes
id_if none id ids = ids
id_if (some change) id ids = id ∷ ids

-- the changes and the ids of the points that were deleted
pub delete_all :
    MemBucket
    → IdCounter
    → List Bytes
    → Result (List IndexPointChange × List Bytes × MemBucket × IdCounter)
delete_all b counter [] = ok ([], [], b, counter)
delete_all b counter (id ∷ ids) = do
  (change, b', counter') ← delete_one b counter id
  (changes, deleted, b'', counter'') ← delete_all b' counter' ids
  ok (add_some change changes, id_if change id deleted, b'', counter'')

-- the count and the counter at the end of a transaction
pub finish : MemBucket → IdCounter → ℕ → Result MemBucket
finish internal counter change = do
  internal' ← change_point_count internal change
  flushed ← IdCounter.flush (record counter { bucket = internal' })
  ok flushed.bucket

module _ {I : Type 0} (dispatch : List IndexPointChange → I → Result I) where
  pub insert_transaction : Shard I → List Point → Result (Unit {0} × Shard I)
  insert_transaction s points = do
    counter ← new_id_counter s.internal free_node_ids_key next_free_node_id_key
    (changes, b, counter') ← insert_all s.points counter points
    indexes ← dispatch changes s.indexes
    internal ← finish s.internal counter' (length points)
    ok (tt, record { points = b; internal = internal; indexes = indexes })

  pub insert_points : Shard I → List Point → Result (Unit {0}) × Shard I
  insert_points s points =
      if has_duplicates points
      then (err duplicate_point, s)
      else transaction s (insert_transaction s points)

  pub delete_transaction : Shard I → List Bytes → Result (List Bytes × Shard I)
  delete_transaction s ids = do
    counter ← new_id_counter s.internal free_node_ids_key next_free_node_id_key
    (changes, deleted, b, counter') ← delete_all s.points counter ids
    indexes ← dispatch changes s.indexes
    internal ← finish s.internal counter' (minus (length deleted))
    ok (deleted, record { points = b; internal = internal; indexes = indexes })

  pub delete_points : Shard I → List Bytes → Result (List Bytes) × Shard I
  delete_points s ids = transaction s (delete_transaction s ids)

-- msgpack: the properties of a document, and the strings among their values
pub record Documents (V : Type 0) : Type 0 where
  pub unmarshal : Bytes → Result (List (Bytes × V))
  pub marshal : List (Bytes × V) → Result Bytes
  pub as_string : V → Option Bytes

module _ {V : Type 0} (documents : Documents V) where
  -- `vs, ok := v.(string); ok && vs == DELETEVALUE`
  unfoldable pub is_delete : V → Bool
  is_delete v = elim (documents.as_string v) [
    | none ↦ false
    | some string ↦ bytes_eq string delete_value
  ]

  -- The loop over the incoming properties. The stored ones are a map that is not nil: Go panics at an
  -- assignment into a nil map.
  unfoldable pub merge : List (Bytes × V) → List (Bytes × V) → List (Bytes × V)
  merge existing [] = existing
  merge existing ((k, v) ∷ incoming) =
      merge (if is_delete v then remove k existing else insert k v existing) incoming

  -- the transformation of one point of an update: a point that is not there is skipped
  pub update_found :
      ℕ → MemBucket → Point → Result ShardPoint → Result (Option IndexPointChange × MemBucket)
  update_found max_point_size b point (err point_does_not_exist) = ok (none, b)
  update_found max_point_size b point (err e) = err e
  update_found max_point_size b point panic = panic
  update_found max_point_size b point (ok sp) = do
    existing ← documents.unmarshal sp.payload
    incoming ← documents.unmarshal point.payload
    final ← documents.marshal (merge existing incoming)
    let updated : ShardPoint = record {
      point = record { id = point.id; payload = final };
      node_id = sp.node_id;
    }
    let change : IndexPointChange = record {
      node_id = sp.node_id;
      previous_data = sp.payload;
      new_data = final;
    }
    (if ltb max_point_size (length final)
        then err other
        else (do b' ← set_point b updated; ok (some change, b')))

  pub update_one : ℕ → MemBucket → Point → Result (Option IndexPointChange × MemBucket)
  update_one max_point_size b point =
      update_found max_point_size b point (get_point_by_uuid b point.id)

  pub update_all :
      ℕ → MemBucket → List Point → Result (List IndexPointChange × List Bytes × MemBucket)
  update_all max_point_size b [] = ok ([], [], b)
  update_all max_point_size b (point ∷ points) = do
    (change, b') ← update_one max_point_size b point
    (changes, updated, b'') ← update_all max_point_size b' points
    ok (add_some change changes, id_if change point.id updated, b'')

  module _ {I : Type 0} (dispatch : List IndexPointChange → I → Result I) where
    pub update_points : ℕ → Shard I → List Point → Result (List Bytes) × Shard I
    update_points max_point_size s points = transaction s (do
      (changes, updated, b) ← update_all max_point_size s.points points
      indexes ← dispatch changes s.indexes
      ok (updated, record s { points = b; indexes = indexes }))
