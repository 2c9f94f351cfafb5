-- ===== src/Shard/Writes/Tests.antt =====
-- A shard without points takes two of them; one with a point refuses it, and loses it.
use semadb.Base.{◌∙◌, List, [], arith, false, inr, true, ◌⊎◌, refl, some, ℕ, ◌∷◌, ◌≡◌}
use semadb.Base.Assoc.{insert, lookup, remove}
use semadb.Base.Result.{Result, duplicate_point, err, ok, point_exists}
use semadb.Conversion.{Bytes, uint64_to_bytes}
use semadb.Diskstore.{new_mem_bucket}
use semadb.Diskstore.Laws.{
  after_put, after_put-writable, get-new_mem_bucket, new_mem_bucket-writable,
}
use semadb.Diskstore.Order.{bytes_eq_iff, bytes_key}
use semadb.Shard.IdCounter.{IdCounter}
use semadb.Shard.IdCounter.Stored.{
  flushed_bucket, flushed_bucket-writable, get-flushed_bucket, new_id_counter-blank,
  new_id_counter-flushed_bucket,
}
use semadb.Shard.Points.{Point, ShardPoint}
use semadb.Shard.Points.Holds.{after_set, after_set-Holds, after_set-writable, get-after_set}
use semadb.Shard.Writes.{
  delete_points, point_count_key, Documents, IndexPointChange, Shard, delete_value, is_delete,
  free_node_ids_key, has_duplicates, has_id, insert_all, insert_points, merge,
  next_free_node_id_key, stored_count,
}
use semadb.Shard.Writes.Deleted.{delete_points_lem}
use semadb.Shard.Writes.Merged.{merge_lem, updated_value}
use semadb.Shard.Writes.Refused.{any_held, insert_points_refused}
use semadb.Shard.Writes.Stored.{IsShard, insert_points_lem, stored_count-after_put}
use semadb.Shard.Writes.Tracked.{hold_all, points_of}

abbrev uuid_of : ℕ → Bytes
uuid_of n = n ∷ 0 ∷ 0 ∷ 0 ∷ 0 ∷ 0 ∷ 0 ∷ 0 ∷ 0 ∷ 0 ∷ 0 ∷ 0 ∷ 0 ∷ 0 ∷ 0 ∷ 0 ∷ []

abbrev two_points : List Point
two_points =
    record { id = uuid_of 1; payload = 7 ∷ [] } ∷ record { id = uuid_of 2; payload = [] } ∷ []

-- indexes that only keep the changes
abbrev collect : List IndexPointChange → List IndexPointChange → Result (List IndexPointChange)
collect changes i = ok changes

abbrev empty_shard : Shard (List IndexPointChange)
empty_shard = record {
  points = new_mem_bucket false;
  internal = new_mem_bucket false;
  indexes = [];
}

abbrev first_counter : IdCounter
first_counter = record {
  bucket = new_mem_bucket false;
  free_ids_key = free_node_ids_key;
  next_free_id_key = next_free_node_id_key;
  free_ids = [];
  next_free_id = 2;
}

empty_shard-IsShard : IsShard empty_shard first_counter []
unfolding stored_count
empty_shard-IsShard = record {
  opened =
      new_id_counter-blank (new_mem_bucket false) free_node_ids_key next_free_node_id_key
        (get-new_mem_bucket false _) (get-new_mem_bucket false _);
  tracks = record {
    writable = new_mem_bucket-writable;
    holds = tt;
    fits = tt;
    fresh = record {
      free_distinct = tt;
      free_bounds = tt;
      used_distinct = tt;
      used_bounds = tt;
      disjoint = tt;
      counted = refl;
    };
    unique = tt;
    bounded = omega arith;
    free_key = refl;
    next_key = refl;
    absent = λ u h. get-new_mem_bucket false _;
  };
  counted = rw (stored_count, get-new_mem_bucket) refl;
  internal_writable = new_mem_bucket-writable;
}

insert_points_lem_example :
    (s : Shard (List IndexPointChange)) × (counter : IdCounter) × (new : List ShardPoint)
    × (insert_points collect empty_shard two_points ≡ (ok tt, s))
    × (points_of new ≡ two_points)
    × IsShard s counter (hold_all new [])
unfolding has_duplicates has_id
insert_points_lem_example =
    insert_points_lem collect empty_shard first_counter [] two_points empty_shard-IsShard refl
      (refl, (refl, tt)) (λ changes. (changes, refl)) (omega arith) (omega arith)

-- a shard with one point
abbrev one_point : ShardPoint
one_point = record { point = record { id = uuid_of 1; payload = 7 ∷ [] }; node_id = 2 }

abbrev before_flush : IdCounter
before_flush = record first_counter {
  bucket = after_put (new_mem_bucket false) point_count_key (uint64_to_bytes 1);
  next_free_id = 3;
}

abbrev one_counter : IdCounter
one_counter = record before_flush { bucket = flushed_bucket before_flush }

abbrev one_shard : Shard (List IndexPointChange)
one_shard = record {
  points = after_set (new_mem_bucket false) one_point;
  internal = flushed_bucket before_flush;
  indexes = [];
}

one_shard-IsShard : IsShard one_shard one_counter (one_point ∷ [])
unfolding stored_count
one_shard-IsShard = record {
  opened = new_id_counter-flushed_bucket before_flush refl (omega arith) tt tt;
  tracks = record {
    writable = after_set-writable (new_mem_bucket false) one_point new_mem_bucket-writable;
    holds = (after_set-Holds (new_mem_bucket false) one_point (omega arith), tt);
    fits = (omega arith, tt);
    fresh = record {
      free_distinct = tt;
      free_bounds = tt;
      used_distinct = (refl, tt);
      used_bounds = ((omega arith, omega arith), tt);
      disjoint = (refl, tt);
      counted = refl;
    };
    unique = (refl, tt);
    bounded = omega arith;
    free_key = refl;
    next_key = refl;
    absent = λ u h.
        get-after_set (new_mem_bucket false) one_point u
          (λ e. ground (arith, bytes_eq_iff (uuid_of 1) u))
        ∙ get-new_mem_bucket false _;
  };
  counted =
      rw (stored_count, get-flushed_bucket before_flush point_count_key refl refl)
        (stored_count-after_put (new_mem_bucket false) 1 (omega arith));
  internal_writable =
      flushed_bucket-writable before_flush ∙ after_put-writable _ _ _ ∙ new_mem_bucket-writable;
}

-- a new point before the one that is held
abbrev new_and_held : List Point
new_and_held =
    record { id = uuid_of 9; payload = [] } ∷ record { id = uuid_of 1; payload = [] } ∷ []

insert_points_refused_example :
    ((has_duplicates new_and_held ≡ true)
      × (insert_points collect one_shard new_and_held ≡ (err duplicate_point, one_shard)))
    ⊎ ((has_duplicates new_and_held ≡ false)
        × (insert_all one_shard.points one_counter new_and_held ≡ err point_exists)
        × ¬ ((insert_points collect one_shard new_and_held).0 ≡ ok tt))
unfolding has_duplicates has_id any_held
insert_points_refused_example =
    insert_points_refused collect one_shard one_counter (one_point ∷ []) new_and_held
      one_shard-IsShard (omega arith) (inr refl)

-- one of the two ids is held
delete_points_lem_example :
    (s : Shard (List IndexPointChange)) × (counter : IdCounter) × (delete_points collect one_shard
        (uuid_of 9 ∷ uuid_of 1 ∷ [])
      ≡ (ok (uuid_of 1 ∷ []), s))
    × IsShard s counter []
delete_points_lem_example =
    delete_points_lem collect one_shard one_counter (one_point ∷ []) (uuid_of 9 ∷ uuid_of 1 ∷ [])
      one_shard-IsShard (λ changes. (changes, refl)) (omega arith)

-- values that are strings
abbrev strings : Documents Bytes
strings = record { unmarshal = λ b. ok []; marshal = λ l. ok []; as_string = λ v. some v }

abbrev old_properties : List (Bytes × Bytes)
old_properties = (b'a' ∷ [], 1 ∷ []) ∷ (b'b' ∷ [], 2 ∷ []) ∷ []

abbrev new_properties : List (Bytes × Bytes)
new_properties = (b'a' ∷ [], 3 ∷ []) ∷ (b'b' ∷ [], delete_value) ∷ []

abbrev name_b : Bytes
name_b = b'b' ∷ []

merge_lem_example :
    lookup name_b (merge strings old_properties new_properties)
    ≡ updated_value strings (lookup name_b new_properties) (lookup name_b old_properties)
unfolding lookup
merge_lem_example = merge_lem strings new_properties old_properties name_b (refl, (refl, tt))

-- the property that is named has its new value, and a deleted one is gone
merged : merge strings old_properties new_properties ≡ (b'a' ∷ [], 3 ∷ []) ∷ []
unfolding merge is_delete insert remove
merged = refl
