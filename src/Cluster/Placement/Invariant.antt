-- ===== src/Cluster/Placement/Invariant.antt =====
-- What holds before every round of the loop over the shards, and that a round keeps it.
use semadb.Base.{
  All, All-append, Bool-cases, List, Option, [], arith, drop, false, if◌then◌else◌, inl, inr, ltb,
  none, some, take, ℕ, ◌+◌, ◌-◌, ◌≡◌, ◌≤◌, ◌∷◌, subst,
}
use semadb.Base.Assoc.{insert, lookup, lookup-insert}
use semadb.Cluster.Placement.{Assignments, ShardInfo, count_taken}
use semadb.Cluster.Placement.Ranges.{Tiles, Tiles-append, insert_new, taken_fits, total_size}
use semadb.Conversion.{Bytes}
use semadb.Diskstore.Order.{bytes_eq, bytes_key}
use semadb.Shard.Points.{Point}

-- no two shards have the same id
abbrev pub DistinctIds : List ShardInfo → Type 0
DistinctIds [] = Unit {0}
DistinctIds (s ∷ shards) = All (λ t. bytes_eq s.id t.id ≡ false) shards × DistinctIds shards

-- `info` is what the shards hold before: the given ones as they say, the created ones nothing. The
-- ids of the k-th call on are new.
pub record IsNaming (create : ℕ → Option Bytes) (info : Bytes → ℕ × ℕ) (k : ℕ)
    (shards : List ShardInfo) : Type 0 where
  pub known : All (λ s. info s.id ≡ (s.size, s.point_count)) shards
  pub distinct : DistinctIds shards
  pub created_empty : (j : ℕ) (id : Bytes) → create j ≡ some id → info id ≡ (0, 0)
  pub created_apart :
      (j : ℕ) (id : Bytes) → k ≤ j → create j ≡ some id → All (λ s. bytes_eq s.id id ≡ false) shards
  pub created_once : (i j : ℕ) (id : Bytes) → create i ≡ some id → create j ≡ some id → i ≡ j

module _ (max_size max_count : ℕ) (info : Bytes → ℕ × ℕ) (all : List Point) where
  -- with the points assigned to it, a shard keeps to the limits
  abbrev pub IsWithin : Bytes × (ℕ × ℕ) → Type 0
  IsWithin (id, (x, y)) =
      ((info id).0 + total_size (take (y - x) (drop x all)) ≤ max_size)
      × ((info id).1 + (y - x) ≤ max_count)

  -- the assignments so far: the points below `start`, in order
  pub record IsAssigned (start : ℕ) (acc : Assignments) : Type 0 where
    pub tiles : Tiles 0 acc start
    pub within : All IsWithin acc

  abbrev pub assign : ShardInfo → ℕ → ℕ → Assignments → Assignments
  assign s n start acc = if ltb 0 n then insert s.id (start, start + n) acc else acc

  pub assign-IsAssigned :
      (s : ShardInfo) (start : ℕ) (acc : Assignments)
      → info s.id ≡ (s.size, s.point_count)
      → lookup s.id acc ≡ none
      → IsAssigned start acc
      → let n = count_taken max_size max_count s.size s.point_count (drop start all) in
        IsAssigned (start + n) (assign s n start acc)
  assign-IsAssigned s start acc known unused a =
      let n = count_taken max_size max_count s.size s.point_count (drop start all) in
      let (bounded, fits) = taken_fits max_size max_count s.size s.point_count (drop start all) in
      elim fits [
        | inl nothing ↦
            let zero_taken : ltb 0 n ≡ false = ground arith in
            rw zero_taken (record {
              tiles = subst (λ m. Tiles 0 acc m) (omega arith) a.tiles;
              within = a.within;
            })
        | inr fit ↦ elim (Bool-cases (ltb 0 n)) [
          | inl some_taken ↦
              let span : start + n - start ≡ n = omega arith in
              rw (some_taken, insert_new s.id (start, start + n) acc unused)
                (record {
                  tiles = Tiles-append 0 start (start + n) s.id acc a.tiles (ground arith);
                  within =
                      All-append IsWithin acc ((s.id, (start, start + n)) ∷ []) a.within
                        (rw (known, span) fit, tt);
                })
          | inr none_taken ↦ rw none_taken (record {
            tiles = subst (λ m. Tiles 0 acc m) (ground arith) a.tiles;
            within = a.within;
          })
        ]
      ]

  -- an assignment leaves the other shards as they were
  pub lookup-assign :
      (s : ShardInfo) (n start : ℕ) (acc : Assignments) (id : Bytes)
      → bytes_eq s.id id ≡ false
      → lookup id acc ≡ none
      → lookup id (assign s n start acc) ≡ none
  lookup-assign s n start acc id other unused =
      ground (arith, lookup-insert s.id id (start, start + n) acc)
