-- ===== src/Cluster/Placement/Rounds.antt =====
-- From one round of the loop over the shards to the next.
use semadb.Base.{
  All, Bool-cases, List, Option, Option-cases, [], ap, arith, false, inl, inr, length, none, refl,
  some, suc, sym, ℕ, ◌+◌, ◌≡◌, ◌≤◌, ◌⊎◌, ◌∷◌, ◌∙◌,
}
use semadb.Base.Assoc.{lookup}
use semadb.Cluster.Placement.{
  Assignments, ShardInfo, count_taken, empty_shard, next_shards, point_size,
}
use semadb.Cluster.Placement.Invariant.{IsNaming, assign, lookup-assign}
use semadb.Conversion.{Bytes}
use semadb.Diskstore.Order.{bytes_eq, bytes_eq_iff, bytes_key}
use semadb.Shard.Points.{Point}

-- no shard that is left, and none that can still be created, has points yet
pub record IsUnused (create : ℕ → Option Bytes) (k : ℕ) (shards : List ShardInfo)
    (acc : Assignments) : Type 0 where
  pub given : All (λ s. lookup s.id acc ≡ none) shards
  pub to_come : (j : ℕ) (id : Bytes) → k ≤ j → create j ≡ some id → lookup id acc ≡ none

-- at the end of the shards no points are left
abbrev pub Served : List ShardInfo → List Point → Type 0
Served [] points = points ≡ []
Served (s ∷ shards) points = Unit {0}

module _ (max_size max_count : ℕ) (create : ℕ → Option Bytes) (info : Bytes → ℕ × ℕ)
    (all : List Point) where
  abbrev pub Going : ℕ → List ShardInfo → Assignments → Type 0
  Going k shards acc = IsNaming create info k shards × IsUnused create k shards acc

  -- a lower bound on what the next shard takes: 1 for a new one, since every point fits it
  abbrev pub Takes : ℕ → List ShardInfo → List Point → Type 0
  Takes fresh [] points = fresh ≡ 0
  Takes fresh (s ∷ shards) points =
      (fresh ≤ count_taken max_size max_count s.size s.point_count points) × (fresh ≤ 1)

  abbrev pub Next : ℕ → List ShardInfo → List Point → Assignments → Type 0
  Next k shards left acc =
      ((j : ℕ) × (create j ≡ none) × (next_shards create k shards left ≡ none))
      ⊎ ((k' : ℕ) × (shards' : List ShardInfo) × (fresh : ℕ) × (next_shards create k shards left
            ≡ some (k', shards'))
          × Served shards' left
          × Takes fresh shards' left
          × (length shards' ≡ length shards + fresh)
          × Going k' shards' acc)

  fits_empty :
      (p : Point) (points : List Point)
      → point_size p ≤ max_size
      → 1 ≤ max_count
      → 1 ≤ count_taken max_size max_count 0 0 (p ∷ points)
  unfolding count_taken
  fits_empty p points h m = ground arith

  pub next_lem :
      (k : ℕ) (shards : List ShardInfo) (left : List Point) (acc : Assignments)
      → 1 ≤ max_count
      → All (λ p. point_size p ≤ max_size) left
      → Going k shards acc
      → Next k shards left acc
  unfolding next_shards
  next_lem k (s ∷ shards) left acc m h (g, u) =
      inr (k, s ∷ shards, 0, refl, tt, (omega arith, omega arith), omega arith, (g, u))
  next_lem k [] [] acc m h (g, u) = inr (k, [], 0, refl, refl, refl, refl, (g, u))
  next_lem k [] (p ∷ left) acc m h (g, u) = elim (Option-cases (create k)) [
    | inl failed ↦ inl (k, failed, rw (next_shards, failed) refl)
    | inr (id, created) ↦ inr (
      suc k,
      empty_shard id ∷ [],
      1,
      rw (next_shards, created) refl,
      tt,
      (fits_empty p left h.0 m, omega arith),
      omega arith,
      (
        record {
          known = (g.created_empty k id created, tt);
          distinct = (tt, tt);
          created_empty = g.created_empty;
          created_apart = λ j id' later created'. (
            elim (Bool-cases (bytes_eq id id')) [
              | inl same ↦
                  let both : create j ≡ some id =
                    created' ∙ ap some (sym ((bytes_eq_iff id id').0 same)) in
                  absurd (omega (arith, g.created_once j k id both created))
              | inr other ↦ other
            ],
            tt,
          );
          created_once = g.created_once;
        },
        record {
          given = (u.to_come k id (omega arith) created, tt);
          to_come = λ j id' later created'. u.to_come j id' (omega arith) created';
        },
      ),
    )
  ]

  -- the shards that are left stay without points
  pub given_rest :
      (s : ShardInfo) (n start : ℕ) (acc : Assignments) (shards : List ShardInfo)
      → All (λ t. bytes_eq s.id t.id ≡ false) shards
      → All (λ t. lookup t.id acc ≡ none) shards
      → All (λ t. lookup t.id (assign max_size max_count info all s n start acc) ≡ none) shards
  given_rest s n start acc [] other unused = tt
  given_rest s n start acc (t ∷ shards) other unused = (
    lookup-assign max_size max_count info all s n start acc t.id other.0 unused.0,
    given_rest s n start acc shards other.1 unused.1,
  )

  pub Going-rest :
      (k : ℕ) (s : ShardInfo) (shards : List ShardInfo) (n start : ℕ) (acc : Assignments)
      → Going k (s ∷ shards) acc
      → Going k shards (assign max_size max_count info all s n start acc)
  Going-rest k s shards n start acc (g, u) = (
    record {
      known = g.known.1;
      distinct = g.distinct.1;
      created_empty = g.created_empty;
      created_apart = λ j id later created. (g.created_apart j id later created).1;
      created_once = g.created_once;
    },
    record {
      given = given_rest s n start acc shards g.distinct.0 u.given.1;
      to_come = λ j id later created.
          lookup-assign max_size max_count info all s n start acc id
            (g.created_apart j id later created).0 (u.to_come j id later created);
    },
  )
