-- ===== src/Cluster/Failed/Unordered.antt =====
-- The order in which the shards answer does not matter.
use mathlib.Core.List.{Perm}
use semadb.Base.{
  fold_of_Perm, Bool, List, Option, Option-cases, [], arith, false, if◌then◌else◌, inl, inr, length,
  length-append, ltb, none, refl, some, ℕ, ◌+◌, ◌++◌, ◌==◌, ◌||◌, ◌≡◌, ◌∷◌, map,
}
use semadb.Base.Result.{Error, not_found, ok, panic, shard_unavailable}
use semadb.Cluster.Failed.{delete_points, gather, update_points}
use semadb.Cluster.Failed.Exact.{among, curate_failed_points_lem, missing}
use semadb.Conversion.{Bytes}
use semadb.Shard.Points.{Point}

among-append : (id : Bytes) (l m : List Bytes) → among id (l ++ m) ≡ (among id l || among id m)
unfolding among
among-append id [] m = refl
among-append id (x ∷ l) m = ground (arith, among-append id l m)

missing_same :
    (message : Error) (l m ids : List Bytes)
    → ((id : Bytes) → among id l ≡ among id m)
    → missing message l ids ≡ missing message m ids
unfolding missing
missing_same message l m [] same = refl
missing_same message l m (id ∷ ids) same = rw (same id, missing_same message l m ids same) refl

module _ (request : Bytes → Option (List Bytes)) where
  -- what the curation reads of the answers: how many shards answered, how many ids they reported,
  -- and whether an id is among those
  answer_count : List Bytes → ℕ
  answer_count order = (gather request order).1

  id_count : List Bytes → ℕ
  id_count order = length (gather request order).0

  reported : Bytes → List Bytes → Bool
  reported id order = among id (gather request order).0

  -- the same for the answer of one shard
  abbrev one_count : Option (List Bytes) → ℕ
  one_count none = 0
  one_count (some ids) = 1

  abbrev one_length : Option (List Bytes) → ℕ
  one_length none = 0
  one_length (some ids) = length ids

  abbrev one_reported : Bytes → Option (List Bytes) → Bool
  one_reported id none = false
  one_reported id (some ids) = among id ids

  answer_count-cons :
      (s : Bytes) (order : List Bytes)
      → answer_count (s ∷ order) ≡ one_count (request s) + answer_count order
  unfolding answer_count gather
  answer_count-cons s order = elim (Option-cases (request s)) [
    | inl failed ↦ rw (answer_count, gather, failed) (omega arith)
    | inr (ids, answered) ↦ rw (answer_count, gather, answered) (omega arith)
  ]

  id_count-cons :
      (s : Bytes) (order : List Bytes)
      → id_count (s ∷ order) ≡ one_length (request s) + id_count order
  unfolding id_count gather
  id_count-cons s order = elim (Option-cases (request s)) [
    | inl failed ↦ rw (gather, failed) (omega arith)
    | inr (ids, answered) ↦ rw (gather, answered) (length-append ids (gather request order).0)
  ]

  reported-cons :
      (id s : Bytes) (order : List Bytes)
      → reported id (s ∷ order) ≡ (one_reported id (request s) || reported id order)
  unfolding reported gather
  reported-cons id s order = elim (Option-cases (request s)) [
    | inl failed ↦ rw (gather, failed) refl
    | inr (ids, answered) ↦ rw (gather, answered) (among-append id ids (gather request order).0)
  ]

  answer_count_of_Perm : {l m : List Bytes} → Perm l m → answer_count l ≡ answer_count m
  answer_count_of_Perm =
      fold_of_Perm answer_count (λ s n. one_count (request s) + n) answer_count-cons
        (λ a b n. omega arith) hlevel

  id_count_of_Perm : {l m : List Bytes} → Perm l m → id_count l ≡ id_count m
  id_count_of_Perm =
      fold_of_Perm id_count (λ s n. one_length (request s) + n) id_count-cons (λ a b n. omega arith)
        hlevel

  reported_of_Perm : (id : Bytes) {l m : List Bytes} → Perm l m → reported id l ≡ reported id m
  reported_of_Perm id =
      fold_of_Perm (reported id) (λ s r. one_reported id (request s) || r) (reported-cons id)
        (λ a b r. ground arith) hlevel

  -- the outcome, as a function of what the curation reads of the answers
  curate_answers :
      (ids shards order : List Bytes)
      → delete_points request ids shards order ≡ (
          if ltb (length ids) (id_count order)
          then panic
          else ok (
              missing
                (if answer_count order == length shards then not_found else shard_unavailable)
                (gather request order).0
                ids))
  unfolding delete_points id_count answer_count
  curate_answers ids shards order =
      curate_failed_points_lem ids (gather request order).0
        ((gather request order).1 == length shards)

  delete_unordered :
      (ids shards order : List Bytes)
      → Perm order shards
      → delete_points request ids shards order ≡ delete_points request ids shards shards
  unfolding reported
  delete_unordered ids shards order p =
      rw
        (
          curate_answers ids shards order,
          curate_answers ids shards shards,
          id_count_of_Perm p,
          answer_count_of_Perm p,
          missing_same
              (if answer_count shards == length shards then not_found else shard_unavailable)
              (gather request order).0 (gather request shards).0 ids (λ id. reported_of_Perm id p),
        )
        refl

  -- However the answers of the shards are ordered, a deletion and an update report the same failures.
  pub failed_points_unordered :
      (ids : List Bytes) (points : List Point) (shards order : List Bytes)
      → Perm order shards
      → (delete_points request ids shards order ≡ delete_points request ids shards shards)
        × (update_points request points shards order ≡ update_points request points shards shards)
  unfolding update_points delete_points
  failed_points_unordered ids points shards order p = (
    delete_unordered ids shards order p,
    delete_unordered (map (λ q. q.id) points) shards order p,
  )
