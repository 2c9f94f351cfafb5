-- ===== src/Cluster/Placement.antt =====
-- `distributePoints` of cluster/placement.go: which points go to which shard, new shards being created
-- when the others are full. The callback that creates a shard is a parameter: the id that its k-th
-- call gives, or `none` for its error. Sizes and counts are int64 in the source, and are sums of
-- lengths of values in memory; here they do not overflow. The loop over the shards runs on fuel,
-- since shards are added to it; `none` means that the fuel is used up.
pub mod Step
pub mod Ranges
pub mod Invariant
pub mod Rounds
pub mod Tiling
pub mod Endless
mod Tests
use semadb.Base.{
  Bool, List, Option, [], drop, false, if◌then◌else◌, length, ltb, none, some, suc, true, zero, ℕ,
  ◌+◌, ◌||◌, ◌∷◌,
}
use semadb.Base.Assoc.{insert}
use semadb.Base.Result.{Result, create_failed, err, ok}
use semadb.Conversion.{Bytes}
use semadb.Diskstore.Order.{bytes_key}
use semadb.Shard.Points.{Point}

-- `shardInfo`
pub record ShardInfo : Type 0 where
  pub id : Bytes
  pub size : ℕ
  pub point_count : ℕ

-- `map[string][2]int`: from the id of a shard to the first point that it takes and the one behind the
-- last
abbrev pub Assignments : Type 0
Assignments = List (Bytes × (ℕ × ℕ))

abbrev pub empty_shard : Bytes → ShardInfo
empty_shard id = record { id = id; size = 0; point_count = 0 }

-- `len(points[j].Data) + len(points[j].Id)`
abbrev pub point_size : Point → ℕ
point_size p = length p.payload + length p.id

module _ (max_shard_size max_shard_point_count : ℕ) where
  -- the inner loop: how many points, from the first that is left, a shard of this size and count takes
  pub count_taken : ℕ → ℕ → List Point → ℕ
  count_taken size count [] = 0
  count_taken size count (p ∷ points) =
      let rest = count_taken (size + point_size p) (count + 1) points in
      if ltb max_shard_size (size + point_size p) || ltb max_shard_point_count (count + 1)
      then 0
      else suc rest

-- The shards to go on with: at the end of the shards, with points left, a new one is created. (`k`
-- calls of the callback were made.)
pub next_shards : (ℕ → Option Bytes) → ℕ → List ShardInfo → List Point → Option (ℕ × List ShardInfo)
next_shards create_shard k (s ∷ shards) points = some (k, s ∷ shards)
next_shards create_shard k [] [] = some (k, [])
next_shards create_shard k [] (p ∷ points) = elim (create_shard k) [
  | none ↦ none
  | some id ↦ some (suc k, empty_shard id ∷ [])
]

module _ (max_shard_size max_shard_point_count : ℕ) (create_shard : ℕ → Option Bytes) where
  -- The loop over the shards: `start` is the index of the first point that is left, and `shards` and
  -- `points` are those that are left.
  pub assign_loop :
      ℕ → ℕ → ℕ → List ShardInfo → List Point → Assignments → Option (Result Assignments)
  assign_loop zero k start shards points acc = none
  assign_loop (suc fuel) k start [] points acc = some (ok acc)
  assign_loop (suc fuel) k start (s ∷ shards) points acc =
      let taken = count_taken max_shard_size max_shard_point_count s.size s.point_count points in
      let left = drop taken points in
      let acc' = if ltb 0 taken then insert s.id (start, start + taken) acc else acc in
      elim (next_shards create_shard k shards left) [
        | none ↦ some (err create_failed)
        | some (k', shards') ↦ assign_loop fuel k' (start + taken) shards' left acc'
      ]

  pub distribute_points : ℕ → List ShardInfo → List Point → Option (Result Assignments)
  distribute_points fuel shards points = elim (next_shards create_shard 0 shards points) [
    | none ↦ some (err create_failed)
    | some (k, shards') ↦ assign_loop fuel k 0 shards' points []
  ]
