-- ===== src/Cluster/Placement/Tests.antt =====
-- The distribution of three points over one shard with some room and the new ones.
use semadb.Base.{All, List, Option, [], arith, none, refl, some, ℕ, ◌≡◌, ◌∷◌, ◌⊎◌, if◌then◌else◌}
use semadb.Base.Assoc.{insert}
use semadb.Base.Result.{create_failed, err, ok}
use semadb.Cluster.Placement.{
  Assignments, ShardInfo, assign_loop, count_taken, distribute_points, next_shards,
}
use semadb.Cluster.Placement.Endless.{distribute_points_endless}
use semadb.Cluster.Placement.Invariant.{IsNaming, IsWithin}
use semadb.Cluster.Placement.Ranges.{Tiles}
use semadb.Cluster.Placement.Tiling.{distribute_points-Tiles}
use semadb.Conversion.{Bytes}
use semadb.Diskstore.Order.{bytes_eq}
use semadb.Shard.Points.{Point}

-- the k-th shard that is created is named after k
abbrev create_next : ℕ → Option Bytes
create_next k = some (b'n' ∷ k ∷ [])

abbrev point_of : ℕ → Point
point_of n = record { id = n ∷ n ∷ []; payload = [] }

abbrev points : List Point
points = point_of 1 ∷ point_of 2 ∷ point_of 3 ∷ []

-- room for one more point of two bytes
abbrev nearly_full : ShardInfo
nearly_full = record { id = b's' ∷ []; size = 2; point_count = 1 }

abbrev info : Bytes → ℕ × ℕ
info id = if bytes_eq id (b's' ∷ []) then (2, 1) else (0, 0)

-- one point to the given shard, two to a new one
two_shards :
    distribute_points 5 10 create_next 6 (nearly_full ∷ []) points
    ≡ some (ok ((b's' ∷ [], (0, 1)) ∷ (b'n' ∷ 0 ∷ [], (1, 3)) ∷ []))
unfolding distribute_points assign_loop next_shards count_taken insert
two_shards = refl

-- no shard can be created
no_shard : distribute_points 5 10 (λ k. none) 6 [] points ≡ some (err create_failed)
unfolding distribute_points next_shards
no_shard = refl

naming : IsNaming create_next info 0 (nearly_full ∷ [])
naming = record {
  known = (refl, tt);
  distinct = (tt, tt);
  created_empty = λ j id created. ground arith;
  created_apart = λ j id later created. (ground arith, tt);
  created_once = λ i j id first second. ground arith;
}

distribute_points-Tiles_example :
    ((j : ℕ) × (create_next j ≡ none)
      × (distribute_points 5 10 create_next 6 (nearly_full ∷ []) points ≡ some (err create_failed)))
    ⊎ ((acc : Assignments) × (distribute_points 5 10 create_next 6 (nearly_full ∷ []) points
          ≡ some (ok acc))
        × Tiles 0 acc 3
        × All (IsWithin 5 10 info points) acc)
distribute_points-Tiles_example =
    distribute_points-Tiles 5 10 create_next info points 6 (nearly_full ∷ []) (omega arith)
      (ground arith) naming (omega arith)

distribute_points_endless_example :
    distribute_points 1 10 create_next 1000 (nearly_full ∷ []) (point_of 7 ∷ []) ≡ none
distribute_points_endless_example =
    distribute_points_endless 1 10 create_next (λ k. (b'n' ∷ k ∷ [], refl)) (point_of 7) [] refl
      1000 (nearly_full ∷ [])
