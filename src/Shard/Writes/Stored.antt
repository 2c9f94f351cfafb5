-- ===== src/Shard/Writes/Stored.antt =====
-- An insertion into a shard keeps its points, its counter and its count in step.
use semadb.Base.{
  All-map, List, [], arith, false, leb, length, refl, ℕ, ◌%◌, ◌+◌, ◌<◌, ◌≤◌, ◌^◌, ◌∙◌, ◌∷◌, ◌≡◌, ap,
}
use semadb.Base.Result.{Result, ok}
use semadb.Conversion.{uint64_to_bytes}
use semadb.Conversion.RoundTrip.{uint64-bytes}
use semadb.Diskstore.{MemBucket}
use semadb.Diskstore.Laws.{after_put, after_put-writable, get-after_put, put-after_put}
use semadb.Diskstore.Order.{bytes_eq}
use semadb.Shard.IdCounter.{IdCounter, new_id_counter}
use semadb.Shard.IdCounter.Fresh.{IsFresh}
use semadb.Shard.IdCounter.Stored.{
  flush-flushed_bucket, flushed_bucket, flushed_bucket-writable, get-flushed_bucket,
  new_id_counter-flushed_bucket,
}
use semadb.Shard.Points.{Point, ShardPoint}
use semadb.Shard.Writes.{
  IndexPointChange, Shard, change_point_count, finish, free_node_ids_key, has_duplicates,
  insert_points, insert_transaction, next_free_node_id_key, point_count_key, stored_count,
  transaction,
}
use semadb.Shard.Writes.Tracked.{AreNew, Tracks, hold_all, insert_all_lem, node_ids, points_of}

-- The counter that is stored tracks the points, and the count is their number.
pub record IsShard {I : Type 0} (s : Shard I) (counter : IdCounter) (held : List ShardPoint)
    : Type 0 where
  pub opened : new_id_counter s.internal free_node_ids_key next_free_node_id_key ≡ ok counter
  pub tracks : Tracks s.points counter held
  pub counted : stored_count s.internal ≡ ok (length held)
  pub internal_writable : s.internal.is_read_only ≡ false

change_point_count_lem :
    (b : MemBucket) (count change : ℕ)
    → b.is_read_only ≡ false
    → stored_count b ≡ ok count
    → (count + change) % 2 ^ 64 < 2 ^ 63
    → change_point_count b change
      ≡ ok (after_put b point_count_key (uint64_to_bytes ((count + change) % 2 ^ 64)))
unfolding change_point_count
change_point_count_lem b count change w now small =
    let positive : leb (2 ^ 63) ((count + change) % 2 ^ 64) ≡ false = ground arith in
    rw (now, positive) (put-after_put b point_count_key _ w)

pub stored_count-after_put :
    (b : MemBucket) (n : ℕ)
    → n < 2 ^ 64
    → stored_count (after_put b point_count_key (uint64_to_bytes n)) ≡ ok n
unfolding stored_count
stored_count-after_put b n h = rw (stored_count, get-after_put, uint64-bytes n h) refl

unfoldable pub Finishes : IdCounter → ℕ → Result MemBucket → Type 0
Finishes c m r =
    (b : MemBucket) × (r ≡ ok b)
    × (new_id_counter b free_node_ids_key next_free_node_id_key ≡ ok (record c { bucket = b }))
    × (stored_count b ≡ ok m)
    × (b.is_read_only ≡ false)

pub finish_lem :
    (internal : MemBucket) (c : IdCounter) (used : List ℕ) (count change : ℕ)
    → internal.is_read_only ≡ false
    → stored_count internal ≡ ok count
    → (count + change) % 2 ^ 64 < 2 ^ 63
    → c.free_ids_key ≡ free_node_ids_key
    → c.next_free_id_key ≡ next_free_node_id_key
    → c.next_free_id < 2 ^ 64
    → IsFresh c used
    → Finishes c ((count + change) % 2 ^ 64) (finish internal c change)
unfolding finish Finishes stored_count
finish_lem internal c used count change w now small fk nk bounded fresh =
    let m = (count + change) % 2 ^ 64 in
    let b1 = after_put internal point_count_key (uint64_to_bytes m) in
    let w1 : b1.is_read_only ≡ false =
      after_put-writable internal point_count_key (uint64_to_bytes m) ∙ w in
    let c1 : IdCounter = record c { bucket = b1 } in
    let b2 = flushed_bucket c1 in
    let differ : bytes_eq c.free_ids_key c.next_free_id_key ≡ false = rw (fk, nk) refl in
    let free_other : bytes_eq c.free_ids_key point_count_key ≡ false = rw fk refl in
    let next_other : bytes_eq c.next_free_id_key point_count_key ≡ false = rw nk refl in
    let fit =
      All-map (λ i. (2 ≤ i) × (i < c.next_free_id)) (λ i. i < 2 ^ 64) c.free_ids
        (λ i h. omega (arith, h.1)) fresh.free_bounds in
    (
      b2,
      rw (change_point_count_lem internal count change w now small, flush-flushed_bucket c1 w1)
          refl,
      rw (← fk, ← nk) (new_id_counter-flushed_bucket c1 differ bounded fit fresh.free_distinct),
      rw (stored_count, get-flushed_bucket c1 point_count_key free_other next_other)
          (stored_count-after_put internal m (omega arith)),
      flushed_bucket-writable c1 ∙ w1,
    )

length-hold_all :
    (new held : List ShardPoint) → length (hold_all new held) ≡ length (points_of new) + length held
length-hold_all [] held = omega arith
length-hold_all (p ∷ new) held = omega (arith, length-hold_all new (p ∷ held))

pub IsFresh-bucket :
    (c : IdCounter) (internal : MemBucket) (used : List ℕ)
    → IsFresh c used
    → IsFresh (record c { bucket = internal }) used
IsFresh-bucket c internal used f = record {
  free_distinct = f.free_distinct;
  free_bounds = f.free_bounds;
  used_distinct = f.used_distinct;
  used_bounds = f.used_bounds;
  disjoint = f.disjoint;
  counted = f.counted;
}

-- the bucket of the counter is not tracked
pub Tracks-bucket :
    (b : MemBucket) (c : IdCounter) (internal : MemBucket) (held : List ShardPoint)
    → Tracks b c held
    → Tracks b (record c { bucket = internal }) held
Tracks-bucket b c internal held t = record {
  writable = t.writable;
  holds = t.holds;
  fits = t.fits;
  fresh = IsFresh-bucket c internal (node_ids held) t.fresh;
  unique = t.unique;
  bounded = t.bounded;
  free_key = t.free_key;
  next_key = t.next_key;
  absent = t.absent;
}

module _ {I : Type 0} (dispatch : List IndexPointChange → I → Result I) where
  -- A shard holds some points: each is found by its UUID and by its node id and has its data, no other
  -- UUID is known, the node ids in use and the free ones are those that the stored counter handed out,
  -- and the stored count is the number of the points. If the dispatch to the indexes succeeds, a request
  -- of points with UUIDs that differ from one another and from those that are held is inserted, and the
  -- shard then holds its points as well, each under a node id of its own. (The node ids and the count
  -- stay within 64 and 63 bits.)
  pub insert_points_lem :
      (s : Shard I) (counter : IdCounter) (held : List ShardPoint) (points : List Point)
      → IsShard s counter held
      → has_duplicates points ≡ false
      → AreNew points held
      → ((changes : List IndexPointChange) → (i : I) × (dispatch changes s.indexes ≡ ok i))
      → length held + length points < 2 ^ 63
      → counter.next_free_id + length points < 2 ^ 64
      → (s' : Shard I) × (counter' : IdCounter) × (new : List ShardPoint) × (insert_points dispatch
            s points
          ≡ (ok tt, s'))
        × (points_of new ≡ points)
        × IsShard s' counter' (hold_all new held)
  unfolding insert_points insert_transaction transaction Finishes
  insert_points_lem s counter held points shard d n dispatched small bound =
      let (changes, b, c, new, run, same, tracks) =
        insert_all_lem s.points counter held points shard.tracks d n bound in
      let (indexes, sent) = dispatched changes in
      let (internal, finished, opened, counted, w) =
        finish_lem s.internal c _ (length held) (length points) shard.internal_writable
          shard.counted (omega arith) tracks.free_key tracks.next_key tracks.bounded tracks.fresh in
      let total : (length held + length points) % 2 ^ 64 ≡ length (hold_all new held) =
        omega (arith, length-hold_all new held, ap length same) in
      (
        record { points = b; internal = internal; indexes = indexes },
        record c { bucket = internal },
        new,
        rw (insert_points, d, shard.opened, run, sent, finished) refl,
        same,
        record {
          opened = opened;
          tracks = Tracks-bucket b c internal (hold_all new held) tracks;
          counted = counted ∙ ap ok total;
          internal_writable = w;
        },
      )
