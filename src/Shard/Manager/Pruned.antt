-- ===== src/Shard/Manager/Pruned.antt =====
-- The caches that are left after a pruning.
use semadb.Base.{
  Bool-cases, [], ap, subst, arith, false, inl, inr, leb, none, refl, some, sym, ℕ, ◌+◌, ◌++◌, ◌-◌,
  ◌==◌, ◌∙◌, ◌∷◌, ◌≡◌, ◌≤◌,
}
use semadb.Base.Assoc.{UniqueKeys, lookup, lookup-remove, remove, remove-UniqueKeys}
use semadb.Conversion.{Bytes}
use semadb.Diskstore.Order.{bytes_eq, bytes_eq_iff, bytes_eq_refl, bytes_key}
use semadb.Shard.Manager.{Caches, SharedCacheElem, by_access, prune_oldest, prune_to, total_size}
use semadb.Shard.Manager.ByAccess.{
  OldestFirst, by_access-OldestFirst, by_access-UniqueKeys, lookup-by_access, nothing_left,
}

module _ {C : Type 0} (size_in_memory : C → ℕ) where
  -- a name that is not in the map
  total_size-absent :
      (n : Bytes) (m : Caches C)
      → lookup n m ≡ none
      → total_size size_in_memory (remove n m) ≡ total_size size_in_memory m
  unfolding total_size lookup remove
  total_size-absent n [] h = refl
  total_size-absent n ((k, f) ∷ m) h = ground (arith, total_size-absent n m)

  total_size-remove :
      (n : Bytes) (e : SharedCacheElem C) (m : Caches C)
      → UniqueKeys m
      → lookup n m ≡ some e
      → total_size size_in_memory (remove n m) + size_in_memory e.item ≡ total_size size_in_memory m
  unfolding total_size lookup remove
  total_size-remove n e [] u h = absurd (ground arith)
  total_size-remove n e ((k, f) ∷ m) u h = elim (Bool-cases (bytes_eq k n)) [
    | inl same ↦
        let equal = (bytes_eq_iff k n).0 same in
        let now : f ≡ e = cc (rw same at h) in
        let absent : lookup n m ≡ none = ap (λ i. lookup i m) (sym equal) ∙ u.0 in
        rw (same, total_size-absent n m absent, now) (omega arith)
    | inr differ ↦ rw differ (omega (arith, total_size-remove n e m u.1 (rw differ at h)))
  ]

  abbrev Keeps : ℕ → Caches C → Caches C → Type 0
  Keeps limit l r =
      (dropped : Caches C) × (kept : Caches C) × (l ≡ dropped ++ kept)
      × ((j : Bytes) → lookup j r ≡ lookup j kept)
      × (total_size size_in_memory r ≤ limit)

  prune_oldest_lem :
      (limit : ℕ) (l : Caches C) (total : ℕ) (m : Caches C)
      → total ≡ total_size size_in_memory m
      → UniqueKeys m
      → UniqueKeys l
      → ((j : Bytes) → lookup j m ≡ lookup j l)
      → Keeps limit l (prune_oldest size_in_memory limit l total m)
  unfolding prune_oldest lookup total_size
  prune_oldest_lem limit [] total m t u v same =
      let empty : m ≡ [] = nothing_left m same in ([], [], refl, same, rw empty (omega arith))
  prune_oldest_lem limit ((n, e) ∷ l) total m t u v same = elim (Bool-cases (leb total limit)) [
    | inl small ↦ ([], (n, e) ∷ l, refl, λ j. rw small (same j), rw small (ground arith))
    | inr large ↦
        let here : lookup n m ≡ some e = same n ∙ rw bytes_eq_refl refl in
        let less = total_size-remove n e m u here in
        let (dropped, kept, split, reads, bound) =
          prune_oldest_lem limit l (total - size_in_memory e.item) (remove n m)
            (omega (arith, less)) (remove-UniqueKeys n m u) v.1
            (λ j. ground (arith, lookup-remove n j m, same j, v.0, bytes_eq_iff n j)) in
        ((n, e) ∷ dropped, kept, ap (◌∷◌ (n, e)) split, λ j. rw large (reads j), rw large bound)
  ]

  -- A limit above 0 is kept: after a pruning of caches with names of their own the sizes sum up to no
  -- more than the limit. The caches that are left are those behind some place in the list of all caches
  -- by the time of their last access, so that none that was dropped was used after one that is left.
  pub prune_to_lem :
      (limit : ℕ) (m : Caches C)
      → UniqueKeys m
      → (limit == 0) ≡ false
      → (total_size size_in_memory (prune_to size_in_memory limit m) ≤ limit)
        × ((dropped : Caches C) × (kept : Caches C) × OldestFirst (dropped ++ kept)
            × ((j : Bytes) → lookup j m ≡ lookup j (dropped ++ kept))
            × ((j : Bytes) → lookup j (prune_to size_in_memory limit m) ≡ lookup j kept))
  unfolding prune_to
  prune_to_lem limit m u positive =
      let same : (j : Bytes) → lookup j m ≡ lookup j (by_access m) =
        λ j. sym (lookup-by_access j m u) in
      elim (Bool-cases (leb (total_size size_in_memory m) limit)) [
        | inl small ↦ (
          rw (positive, small) (ground arith),
          (
            [],
            by_access m,
            by_access-OldestFirst m,
            same,
            λ j. rw (prune_to, positive, small) (same j),
          ),
        )
        | inr large ↦
            let (dropped, kept, split, reads, bound) =
              prune_oldest_lem limit (by_access m) (total_size size_in_memory m) m refl u
                (by_access-UniqueKeys m u) same in
            (
              rw (prune_to, positive, large) bound,
              (
                dropped,
                kept,
                subst OldestFirst split (by_access-OldestFirst m),
                λ j. same j ∙ ap (lookup j) split,
                λ j. rw (prune_to, positive, large) (reads j),
              ),
            )
      ]
