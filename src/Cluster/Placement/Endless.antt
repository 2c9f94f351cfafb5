-- ===== src/Cluster/Placement/Endless.antt =====
-- A point that no shard can take.
use semadb.Base.{
  List, Option, [], arith, ltb, none, refl, some, suc, true, zero, ℕ, ◌+◌, ◌||◌, ◌≡◌, ◌∷◌,
}
use semadb.Cluster.Placement.{
  Assignments, ShardInfo, assign_loop, count_taken, distribute_points, empty_shard, next_shards,
  point_size,
}
use semadb.Cluster.Placement.Step.{loop_goes_on}
use semadb.Conversion.{Bytes}
use semadb.Shard.Points.{Point}

module _ (max_size max_count : ℕ) (create : ℕ → Option Bytes)
    (created : (k : ℕ) → (id : Bytes) × (create k ≡ some id)) (p : Point) (points : List Point)
    (too_large : (ltb max_size (point_size p) || ltb max_count 1) ≡ true) where
  taken_none : (size count : ℕ) → count_taken max_size max_count size count (p ∷ points) ≡ 0
  unfolding count_taken
  taken_none size count = ground arith

  -- there is always a next shard
  next_some :
      (k : ℕ) (shards : List ShardInfo)
      → (k' : ℕ) × (s : ShardInfo) × (more : List ShardInfo) × (next_shards create k shards
            (p ∷ points)
          ≡ some (k', s ∷ more))
  unfolding next_shards
  next_some k (s ∷ shards) = (k, s, shards, refl)
  next_some k [] = (suc k, empty_shard (created k).0, [], rw (next_shards, (created k).1) refl)

  loop_endless :
      (fuel k start : ℕ) (s : ShardInfo) (shards : List ShardInfo) (acc : Assignments)
      → assign_loop max_size max_count create fuel k start (s ∷ shards) (p ∷ points) acc ≡ none
  unfolding assign_loop
  loop_endless zero k start s shards acc = refl
  loop_endless (suc fuel) k start s shards acc =
      let (k', t, more, next) = next_some k shards in
      rw
        (
          loop_goes_on max_size max_count create fuel k start s shards (p ∷ points) acc k'
              (t ∷ more) (rw (taken_none s.size s.point_count) next),
          taken_none s.size s.point_count,
        )
        (loop_endless fuel k' (start + 0) t more acc)

  -- If the first point is larger than a shard may be, or a shard may have no point, and every new
  -- shard can be created, the distribution never ends: no fuel is enough.
  pub distribute_points_endless :
      (fuel : ℕ) (shards : List ShardInfo)
      → distribute_points max_size max_count create fuel shards (p ∷ points) ≡ none
  unfolding distribute_points
  distribute_points_endless fuel shards =
      let (k, s, more, next) = next_some 0 shards in
      rw (distribute_points, next) (loop_endless fuel k 0 s more [])
