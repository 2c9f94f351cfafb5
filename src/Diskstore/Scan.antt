-- ===== src/Diskstore/Scan.antt =====
-- What the scans of a bucket visit.
use mathlib.Core.Path.{fun_ext}
use semadb.Base.{
  ◌||◌, ◌∙◌, Bool, Bool-cases, Option, ap, arith, false, inl, inr, length, ltb, none, not, refl,
  some, take, true, [], ◌&&◌, ◌==◌, if◌then◌else◌, ◌∷◌, ◌≡◌,
}
use semadb.Base.Assoc.{UniqueKeys, lookup}
use semadb.Base.Result.{Result}
use semadb.Conversion.{Bytes}
use semadb.Diskstore.{
  MemBucket, Pairs, after_end, before_start, for_each, get, prefix_loop, prefix_scan, range_loop,
  range_scan, visit,
}
use semadb.Diskstore.Laws.{IsMap}
use semadb.Diskstore.Order.{
  AllAbove, Ascending, bytes_eq, bytes_eq_comm, bytes_eq_iff, bytes_eq_refl, bytes_key, bytes_lt,
  bytes_lt_irrefl, bytes_lt_total, bytes_lt_trans, lookup-sort_pairs, sort_pairs,
  sort_pairs-Ascending,
}

-- the entries whose key passes the test, in their order
unfoldable pub select : (Bytes → Bool) → Pairs → Pairs
select p [] = []
select p ((k, v) ∷ m) = let rest = select p m in if p k then (k, v) ∷ rest else rest

unfoldable pub starts_with : Bytes → Bytes → Bool
starts_with [] k = true
starts_with (x ∷ p) [] = false
starts_with (x ∷ p) (y ∷ k) = y == x && starts_with p k

prefix_test :
    (p k : Bytes)
    → (if ltb (length k) (length p) then false else bytes_eq (take (length p) k) p)
      ≡ starts_with p k
unfolding starts_with
prefix_test [] k = ground arith
prefix_test (x ∷ p) [] = ground arith
prefix_test (x ∷ p) (y ∷ k) = ground (arith, prefix_test p k)

-- The keys between two ends: an absent end bounds nothing, an end is itself in an inclusive range, and
-- is not in an exclusive one.
unfoldable pub from_start : Option Bytes → Bool → Bytes → Bool
from_start none inclusive k = true
from_start (some start) true k = bytes_eq start k || bytes_lt start k
from_start (some start) false k = bytes_lt start k

unfoldable pub to_end : Option Bytes → Bool → Bytes → Bool
to_end none inclusive k = true
to_end (some end_key) true k = bytes_eq k end_key || bytes_lt k end_key
to_end (some end_key) false k = bytes_lt k end_key

unfoldable pub in_range : Option Bytes → Option Bytes → Bool → Bytes → Bool
in_range start end_key inclusive k = from_start start inclusive k && to_end end_key inclusive k

-- an order that is not strict, by its negation
at_most : (a b : Bytes) → (bytes_eq a b || bytes_lt a b) ≡ not (bytes_lt b a)
at_most a b = elim (Bool-cases (bytes_eq a b)) [
  | inl same ↦ rw (← (bytes_eq_iff a b).0 same, bytes_lt_irrefl a, bytes_eq_refl a) refl
  | inr other ↦ elim (Bool-cases (bytes_lt b a)) [
    | inl above ↦
        rw (other, above)
          (elim (Bool-cases (bytes_lt a b)) [
            | inl t ↦ absurd (ground (arith, bytes_lt_trans b a b above t, bytes_lt_irrefl b))
            | inr f ↦ f
          ])
    | inr below ↦ rw (other, below, bytes_lt_total b a below (bytes_eq_comm b a ∙ other)) refl
  ]
]

from_start-before_start :
    (start : Option Bytes) (inclusive : Bool) (k : Bytes)
    → from_start start inclusive k ≡ not (before_start start inclusive k)
unfolding from_start before_start
from_start-before_start none inclusive k = refl
from_start-before_start (some start) true k = at_most start k
from_start-before_start (some start) false k = ground arith

to_end-after_end :
    (end_key : Option Bytes) (inclusive : Bool) (k : Bytes)
    → to_end end_key inclusive k ≡ not (after_end end_key inclusive k)
unfolding to_end after_end
to_end-after_end none inclusive k = refl
to_end-after_end (some end_key) true k = at_most k end_key
to_end-after_end (some end_key) false k = ground arith

-- the keys that a scan neither skips nor stops at are those of the range
pub in_range-bounds :
    (start end_key : Option Bytes) (inclusive : Bool) (k : Bytes)
    → in_range start end_key inclusive k
      ≡ (not (before_start start inclusive k) && not (after_end end_key inclusive k))
unfolding in_range
in_range-bounds start end_key inclusive k =
    rw (from_start-before_start start inclusive k, to_end-after_end end_key inclusive k) refl

-- behind a key that ends the range every key ends it
after_end_mono :
    (end_key : Option Bytes) (inclusive : Bool) (j k : Bytes)
    → bytes_lt j k ≡ true
    → after_end end_key inclusive j ≡ true
    → after_end end_key inclusive k ≡ true
unfolding after_end
after_end_mono none inclusive j k h a = cc
after_end_mono (some e) true j k h a = bytes_lt_trans e j k a h
after_end_mono (some e) false j k h a = elim (Bool-cases (bytes_lt k e)) [
  | inl t ↦ ground (arith, bytes_lt_trans j k e h t)
  | inr f ↦ rw f
]

select-past_end :
    (start end_key : Option Bytes) (inclusive : Bool) (j : Bytes) (m : Pairs)
    → AllAbove j m
    → after_end end_key inclusive j ≡ true
    → select (in_range start end_key inclusive) m ≡ []
unfolding select
select-past_end start end_key inclusive j [] a h = refl
select-past_end start end_key inclusive j ((k, v) ∷ m) a h =
    let past = after_end_mono end_key inclusive j k a.0 h in
    ground (
      arith,
      past,
      in_range-bounds start end_key inclusive k,
      select-past_end start end_key inclusive j m a.1 h,
    )

AllAbove-select :
    (p : Bytes → Bool) (j : Bytes) (m : Pairs) → AllAbove j m → AllAbove j (select p m)
unfolding select
AllAbove-select p j [] a = tt
AllAbove-select p j ((k, v) ∷ m) a = elim (Bool-cases (p k)) [
  | inl t ↦ rw t (a.0, AllAbove-select p j m a.1)
  | inr f ↦ rw f (AllAbove-select p j m a.1)
]

Ascending-select : (p : Bytes → Bool) (m : Pairs) → Ascending m → Ascending (select p m)
unfolding select
Ascending-select p [] a = tt
Ascending-select p ((k, v) ∷ m) a = elim (Bool-cases (p k)) [
  | inl t ↦ rw t (AllAbove-select p k m a.0, Ascending-select p m a.1)
  | inr f ↦ rw f (Ascending-select p m a.1)
]

pub lookup-select :
    (p : Bytes → Bool) (j : Bytes) (m : Pairs)
    → lookup j (select p m) ≡ (if p j then lookup j m else none)
unfolding select lookup
lookup-select p j [] = ground arith
lookup-select p j ((k, v) ∷ m) = elim (Bool-cases (bytes_eq k j)) [
  | inl t ↦ rw ((bytes_eq_iff k j).0 t) (ground (arith, lookup-select p j m))
  | inr f ↦ ground (arith, lookup-select p j m)
]

module _ {S : Type 0} (f : Bytes → Bytes → S → Result S) where
  prefix_loop-visit :
      (prefix : Bytes) (m : Pairs)
      → prefix_loop f prefix m ≡ visit f (select (starts_with prefix) m)
  unfolding prefix_loop visit select
  prefix_loop-visit prefix [] = refl
  prefix_loop-visit prefix ((k, v) ∷ m) =
      fun_ext λ s. rw (prefix_loop-visit prefix m, ← prefix_test prefix k) (ground arith)

  range_loop-visit :
      (start end_key : Option Bytes) (inclusive : Bool) (m : Pairs)
      → Ascending m
      → range_loop f start end_key inclusive m
        ≡ visit f (select (in_range start end_key inclusive) m)
  unfolding range_loop visit select
  range_loop-visit start end_key inclusive [] a = refl
  range_loop-visit start end_key inclusive ((k, v) ∷ m) a = fun_ext λ s.
      elim (Bool-cases (after_end end_key inclusive k)) [
        | inl past ↦
            rw
              (
                range_loop-visit start end_key inclusive m a.1,
                in_range-bounds start end_key inclusive k,
                past,
                select-past_end start end_key inclusive k m a.0 past,
              )
              (ground arith)
        | inr inside ↦
            rw
              (
                range_loop-visit start end_key inclusive m a.1,
                in_range-bounds start end_key inclusive k,
                inside,
              )
              (ground arith)
      ]

pub select-UniqueKeys : (p : Bytes → Bool) (m : Pairs) → UniqueKeys m → UniqueKeys (select p m)
unfolding select
select-UniqueKeys p [] u = tt
select-UniqueKeys p ((k, v) ∷ m) u = elim (Bool-cases (p k)) [
  | inl t ↦ rw t (rw (lookup-select p k m, u.0) (ground arith), select-UniqueKeys p m u.1)
  | inr f ↦ rw f (select-UniqueKeys p m u.1)
]

AllAbove-lookup : (k : Bytes) (m : Pairs) → AllAbove k m → lookup k m ≡ none
unfolding lookup
AllAbove-lookup k [] a = refl
AllAbove-lookup k ((j, v) ∷ m) a =
    ground (arith, AllAbove-lookup k m a.1, bytes_lt_irrefl k, bytes_eq_iff j k)

-- ascending keys are unique
pub Ascending-UniqueKeys : (m : Pairs) → Ascending m → UniqueKeys m
Ascending-UniqueKeys [] a = tt
Ascending-UniqueKeys ((k, v) ∷ m) a = (AllAbove-lookup k m a.0, Ascending-UniqueKeys m a.1)

pub get-entries : (b : MemBucket) (k : Bytes) → get b k ≡ lookup k b.entries
unfolding get
get-entries b k = refl

pub for_each-visit :
    {S : Type 0} (f : Bytes → Bytes → S → Result S) (b : MemBucket) (s : S)
    → for_each f b s ≡ visit f b.entries s
unfolding for_each
for_each-visit f b s = refl

-- A prefix scan calls the callback on exactly the entries whose key starts with the prefix, until
-- the callback fails.
pub prefix_scan_exact :
    {S : Type 0} (f : Bytes → Bytes → S → Result S) (b : MemBucket) (prefix : Bytes) (s : S)
    → prefix_scan f b prefix s ≡ visit f (select (starts_with prefix) b.entries) s
unfolding prefix_scan
prefix_scan_exact f b prefix s = ap (λ g. g s) (prefix_loop-visit f prefix b.entries)

-- On a bucket whose keys are unique, a range scan calls the callback, until it fails, on a list of
-- entries in ascending order of their keys, which holds exactly the entries of the bucket whose key
-- lies between the two ends. (An absent end bounds nothing, an end is itself in an inclusive range.)
pub range_scan_exact :
    {S : Type 0} (f : Bytes → Bytes → S → Result S) (b : MemBucket) (start end_key : Option Bytes)
    (inclusive : Bool)
    → IsMap b
    → (visited : Pairs) × ((s : S) → range_scan f b start end_key inclusive s ≡ visit f visited s)
      × Ascending visited
      × ((k : Bytes)
          → lookup k visited ≡ (if in_range start end_key inclusive k then get b k else none))
unfolding range_scan get
range_scan_exact f b start end_key inclusive u =
    let sorted = sort_pairs b.entries in
    let p = in_range start end_key inclusive in
    let ascending : Ascending sorted = sort_pairs-Ascending b.entries u in
    (
      select p sorted,
      λ s. ap (λ g. g s) (range_loop-visit f start end_key inclusive sorted ascending),
      Ascending-select p sorted ascending,
      λ k. rw (lookup-select p k sorted, lookup-sort_pairs k b.entries u),
    )
