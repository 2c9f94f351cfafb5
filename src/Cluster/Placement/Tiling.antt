-- ===== src/Cluster/Placement/Tiling.antt =====
-- The distribution ends with every point given to one shard, in order, and no shard beyond its
-- limits.
use semadb.Base.{
  All, All-drop, List, Option, [], ap, arith, drop, drop-drop, inl, inr, length, length-drop, none,
  refl, some, suc, sym, zero, ℕ, ◌+◌, ◌-◌, ◌<◌, ◌≡◌, ◌≤◌, ◌⊎◌, ◌∷◌, subst,
}
use semadb.Base.Assoc.{lookup}
use semadb.Base.Result.{Result, create_failed, err, ok}
use semadb.Cluster.Placement.{
  Assignments, ShardInfo, assign_loop, count_taken, distribute_points, point_size,
}
use semadb.Cluster.Placement.Invariant.{IsAssigned, IsNaming, IsWithin, assign, assign-IsAssigned}
use semadb.Cluster.Placement.Ranges.{Tiles, taken_fits}
use semadb.Cluster.Placement.Rounds.{Going, Going-rest, IsUnused, Served, Takes, next_lem}
use semadb.Cluster.Placement.Step.{loop_fails, loop_goes_on}
use semadb.Conversion.{Bytes}
use semadb.Diskstore.Order.{bytes_key}
use semadb.Shard.Points.{Point}

module _ (max_size max_count : ℕ) (create : ℕ → Option Bytes) (info : Bytes → ℕ × ℕ)
    (all : List Point) where
  -- the ways in which the distribution ends
  abbrev Ends : Option (Result Assignments) → Type 0
  Ends r =
      ((j : ℕ) × (create j ≡ none) × (r ≡ some (err create_failed)))
      ⊎ ((acc : Assignments) × (r ≡ some (ok acc))
          × Tiles 0 acc (length all)
          × All (IsWithin max_size max_count info all) acc)

  lookup-nil : (id : Bytes) → lookup {V = ℕ × ℕ} id [] ≡ none
  unfolding lookup
  lookup-nil id = refl

  nothing_assigned : (shards : List ShardInfo) → All (λ s. lookup {V = ℕ × ℕ} s.id [] ≡ none) shards
  unfolding lookup
  nothing_assigned [] = tt
  nothing_assigned (s ∷ shards) = (refl, nothing_assigned shards)

  loop_tiles :
      (fuel k start fresh : ℕ) (shards : List ShardInfo) (acc : Assignments)
      → 1 ≤ max_count
      → All (λ p. point_size p ≤ max_size) all
      → Going max_size max_count create info all k shards acc
      → IsAssigned max_size max_count info all start acc
      → start ≤ length all
      → Served shards (drop start all)
      → Takes max_size max_count create info all fresh shards (drop start all)
      → length shards + (length all - start) < fuel + fresh
      → Ends (assign_loop max_size max_count create fuel k start shards (drop start all) acc)
  unfolding assign_loop
  loop_tiles zero k start fresh [] acc m h g a b served takes enough = absurd (omega arith)
  loop_tiles zero k start fresh (s ∷ shards) acc m h g a b served takes enough =
      absurd (omega arith)
  loop_tiles (suc fuel) k start fresh [] acc m h g a b served takes enough =
      let whole : start ≡ length all =
        omega (arith, length-drop start all, ap (λ l. length l) served) in
      inr (acc, refl, subst (λ n. Tiles 0 acc n) whole a.tiles, a.within)
  loop_tiles (suc fuel) k start fresh (s ∷ shards) acc m h (g, u) a b served takes enough =
      let points = drop start all in
      let n = count_taken max_size max_count s.size s.point_count points in
      let acc' = assign max_size max_count info all s n start acc in
      let rest : drop n points ≡ drop (start + n) all = drop-drop start n all in
      let bounded = (taken_fits max_size max_count s.size s.point_count points).0 in
      let size = length-drop start all in
      elim (next_lem max_size max_count create info all k shards (drop n points) acc' m
        (All-drop _ n points (All-drop _ start all h))
        (Going-rest max_size max_count create info all k s shards n start acc (g, u))) [
          | inl (j, failed, next) ↦ inl (
            j,
            failed,
            loop_fails max_size max_count create fuel k start s shards points acc next,
          )
          | inr (k', shards', fresh', next, served', takes', longer, going') ↦
              rw
                (loop_goes_on max_size max_count create fuel k start s shards points acc k' shards'
                  next)
                (subst
                  (λ left.
                    Ends
                      (assign_loop max_size max_count create fuel k' (start + n) shards' left acc'))
                  (sym rest)
                  (loop_tiles fuel k' (start + n) fresh' shards' acc' m h going'
                    (assign-IsAssigned max_size max_count info all s start acc g.known.0 u.given.0
                      a)
                    (omega arith) (subst (λ left. Served shards' left) rest served')
                    (subst (λ left. Takes max_size max_count create info all fresh' shards' left)
                      rest takes')
                    (omega arith)))
        ]

  -- If every point fits an empty shard, a shard may have points, the given shards have different ids
  -- and sizes as `info` says, and the ids of created shards are new, then a fuel of two more than the
  -- shards and points is enough: either the creation of a shard failed, and so does the distribution,
  -- or every point is assigned once, in a range of its own shard, the ranges following one another
  -- without a gap, and no shard is filled beyond the limits on its size and its count.
  pub distribute_points-Tiles :
      (fuel : ℕ) (shards : List ShardInfo)
      → 1 ≤ max_count
      → All (λ p. point_size p ≤ max_size) all
      → IsNaming create info 0 shards
      → length shards + length all + 2 ≤ fuel
      → ((j : ℕ) × (create j ≡ none)
          × (distribute_points max_size max_count create fuel shards all
              ≡ some (err create_failed)))
        ⊎ ((acc : Assignments) × (distribute_points max_size max_count create fuel shards all
              ≡ some (ok acc))
            × Tiles 0 acc (length all)
            × All (IsWithin max_size max_count info all) acc)
  unfolding distribute_points
  distribute_points-Tiles fuel shards m h naming enough =
      let unused : IsUnused create 0 shards [] = record {
        given = nothing_assigned shards;
        to_come = λ j id later created. lookup-nil id;
      } in
      elim (next_lem max_size max_count create info all 0 shards all [] m h (naming, unused)) [
        | inl (j, failed, next) ↦ inl (j, failed, rw (distribute_points, next) refl)
        | inr (k, shards', fresh, next, served, takes, longer, going) ↦
            rw (distribute_points, next)
              (loop_tiles fuel k 0 fresh shards' [] m h going (record { tiles = refl; within = tt })
                (omega arith) served takes (omega arith))
      ]
