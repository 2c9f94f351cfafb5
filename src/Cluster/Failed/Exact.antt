-- ===== src/Cluster/Failed/Exact.antt =====
-- Exactly the ids that no shard reported have failed.
use semadb.Base.{
  All, Bool, Bool-cases, List, [], arith, false, if◌then◌else◌, inl, inr, length, ltb, refl, true,
  ◌||◌, ◌≡◌, ◌∷◌, sym, ap,
}
use semadb.Base.Result.{Error, not_found, ok, panic, shard_unavailable}
use semadb.Cluster.Failed.{
  FailedPoint, binary_search, collect_failed, curate_failed_points, place_id, sort_ids,
}
use semadb.Conversion.{Bytes}
use semadb.Diskstore.Order.{
  bytes_eq, bytes_eq_iff, bytes_lt, bytes_lt_irrefl, bytes_lt_total, bytes_lt_trans,
}

unfoldable pub among : Bytes → List Bytes → Bool
among id [] = false
among id (x ∷ l) = bytes_eq x id || among id l

-- the failures of the ids that are not among the others
unfoldable pub missing : Error → List Bytes → List Bytes → List FailedPoint
missing message success_ids [] = []
missing message success_ids (id ∷ ids) =
    let rest = missing message success_ids ids in
    if among id success_ids then rest else record { id = id; message = message } ∷ rest

-- ascending, with repetitions
abbrev Sorted : List Bytes → Type 0
Sorted [] = Unit {0}
Sorted (x ∷ l) = All (λ y. bytes_lt y x ≡ false) l × Sorted l

-- of ids that are not below `x`, none is below what is not above `x`
not_below :
    (id x : Bytes) (l : List Bytes)
    → bytes_lt x id ≡ false
    → All (λ y. bytes_lt y x ≡ false) l
    → All (λ y. bytes_lt y id ≡ false) l
not_below id x [] h a = tt
not_below id x (y ∷ l) h a = (
  elim (Bool-cases (bytes_lt y id)) [
    | inr f ↦ f
    | inl below ↦ elim (Bool-cases (bytes_eq x id)) [
      | inl same ↦ absurd (ground (arith, ap (bytes_lt y) ((bytes_eq_iff x id).0 same)))
      | inr other ↦
          absurd (ground (arith, bytes_lt_trans y id x below (bytes_lt_total x id h other)))
    ]
  ],
  not_below id x l h a.1,
)

All-place_id :
    (x id : Bytes) (l : List Bytes)
    → bytes_lt id x ≡ false
    → All (λ y. bytes_lt y x ≡ false) l
    → All (λ y. bytes_lt y x ≡ false) (place_id id l)
unfolding place_id
All-place_id x id [] h a = (h, tt)
All-place_id x id (y ∷ l) h a = elim (Bool-cases (bytes_lt y id)) [
  | inl t ↦ rw t (a.0, All-place_id x id l h a.1)
  | inr f ↦ rw f (h, a)
]

-- the order is asymmetric
bytes_lt_asymm : (a b : Bytes) → bytes_lt a b ≡ true → bytes_lt b a ≡ false
bytes_lt_asymm a b h = elim (Bool-cases (bytes_lt b a)) [
  | inl t ↦ absurd (ground (arith, bytes_lt_trans a b a h t, bytes_lt_irrefl a))
  | inr f ↦ f
]

place_id-Sorted : (id : Bytes) (l : List Bytes) → Sorted l → Sorted (place_id id l)
unfolding place_id
place_id-Sorted id [] s = (tt, tt)
place_id-Sorted id (x ∷ l) s = elim (Bool-cases (bytes_lt x id)) [
  | inl t ↦ rw t (All-place_id x id l (bytes_lt_asymm x id t) s.0, place_id-Sorted id l s.1)
  | inr f ↦ rw f ((f, not_below id x l f s.0), s)
]

sort_ids-Sorted : (l : List Bytes) → Sorted (sort_ids l)
unfolding sort_ids
sort_ids-Sorted [] = tt
sort_ids-Sorted (id ∷ l) = place_id-Sorted id (sort_ids l) (sort_ids-Sorted l)

among-place_id :
    (j id : Bytes) (l : List Bytes) → among j (place_id id l) ≡ (bytes_eq id j || among j l)
unfolding place_id among
among-place_id j id [] = refl
among-place_id j id (x ∷ l) = ground (arith, among-place_id j id l)

among-sort_ids : (j : Bytes) (l : List Bytes) → among j (sort_ids l) ≡ among j l
unfolding sort_ids among
among-sort_ids j [] = refl
among-sort_ids j (id ∷ l) = ground (arith, among-place_id j id (sort_ids l), among-sort_ids j l)

-- what is not above the items of a list is among them only as an equal of one that is not above it
among-above :
    (id x : Bytes) (l : List Bytes)
    → bytes_lt x id ≡ false
    → bytes_eq x id ≡ false
    → All (λ y. bytes_lt y x ≡ false) l
    → among id l ≡ false
unfolding among
among-above id x [] h n a = refl
among-above id x (y ∷ l) h n a = elim (Bool-cases (bytes_eq y id)) [
  | inl same ↦
      let below : bytes_lt id x ≡ true = bytes_lt_total x id h n in
      absurd (ground (arith, ap (λ k. bytes_lt k x) ((bytes_eq_iff y id).0 same)))
  | inr other ↦ rw other (among-above id x l h n a.1)
]

binary_search-among : (id : Bytes) (l : List Bytes) → Sorted l → (binary_search l id).1 ≡ among id l
unfolding binary_search among
binary_search-among id [] s = refl
binary_search-among id (x ∷ l) s = elim (Bool-cases (bytes_lt x id)) [
  | inl t ↦ elim (Bool-cases (bytes_eq x id)) [
    | inl same ↦
        absurd (ground (arith, ap (bytes_lt x) ((bytes_eq_iff x id).0 same), bytes_lt_irrefl x))
    | inr other ↦ rw (t, other) (binary_search-among id l s.1)
  ]
  | inr f ↦ elim (Bool-cases (bytes_eq x id)) [
    | inl same ↦ rw (f, same) refl
    | inr other ↦ rw (f, other) (sym (among-above id x l f other s.0))
  ]
]

collect_failed-missing :
    (message : Error) (success ids : List Bytes)
    → collect_failed message (sort_ids success) ids ≡ missing message success ids
unfolding collect_failed missing
collect_failed-missing message success [] = refl
collect_failed-missing message success (id ∷ ids) =
    rw
      (
        binary_search-among id (sort_ids success) (sort_ids-Sorted success),
        among-sort_ids id success,
        collect_failed-missing message success ids,
      )
      refl

-- The failed points are exactly the ids that are not among the successful ones, in the order of all
-- ids, with "not found" as their error if every shard answered and "shard unavailable" if not; but if
-- more ids succeeded than there are, the call panics.
pub curate_failed_points_lem :
    (all_ids success_ids : List Bytes) (is_complete : Bool)
    → curate_failed_points all_ids success_ids is_complete ≡ (
        if ltb (length all_ids) (length success_ids)
        then panic
        else ok
            (missing (if is_complete then not_found else shard_unavailable) success_ids all_ids))
unfolding curate_failed_points
curate_failed_points_lem all_ids success_ids is_complete =
    rw
      (collect_failed-missing (if is_complete then not_found else shard_unavailable) success_ids
        all_ids)
      refl
