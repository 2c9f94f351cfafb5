-- ===== src/Cluster/Placement/Step.antt =====
-- One round of the loop over the shards, by what the next shards are.
use semadb.Base.{List, Option, drop, if◌then◌else◌, ltb, none, refl, some, suc, ℕ, ◌+◌, ◌≡◌, ◌∷◌}
use semadb.Base.Assoc.{insert}
use semadb.Base.Result.{create_failed, err}
use semadb.Cluster.Placement.{Assignments, ShardInfo, assign_loop, count_taken, next_shards}
use semadb.Conversion.{Bytes}
use semadb.Diskstore.Order.{bytes_key}
use semadb.Shard.Points.{Point}

module _ (max_size max_count : ℕ) (create : ℕ → Option Bytes) (fuel k start : ℕ) (s : ShardInfo)
    (shards : List ShardInfo) (points : List Point) (acc : Assignments) where
  abbrev pub taken_now : ℕ
  taken_now = count_taken max_size max_count s.size s.point_count points

  abbrev pub acc_now : Assignments
  acc_now = if ltb 0 taken_now then insert s.id (start, start + taken_now) acc else acc

  pub loop_goes_on :
      (k' : ℕ) (shards' : List ShardInfo)
      → next_shards create k shards (drop taken_now points) ≡ some (k', shards')
      → assign_loop max_size max_count create (suc fuel) k start (s ∷ shards) points acc
        ≡ assign_loop max_size max_count create fuel k'
            (start + taken_now)
            shards'
            (drop taken_now points)
            acc_now
  unfolding assign_loop
  loop_goes_on k' shards' next = rw (next, assign_loop) refl

  pub loop_fails :
      next_shards create k shards (drop taken_now points) ≡ none
      → assign_loop max_size max_count create (suc fuel) k start (s ∷ shards) points acc
        ≡ some (err create_failed)
  unfolding assign_loop
  loop_fails next = rw (next, assign_loop) refl
