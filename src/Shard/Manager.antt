-- ===== src/Shard/Manager.antt =====
-- shard/cache/manager.go: the caches that requests share, and the pruning of those that were used longest
-- ago. The size of a cache is a parameter, sums of sizes stay within 63 bits and a time is a number. The
-- locks and the transactions over the caches are not modelled.
pub mod ByAccess
pub mod Pruned
mod Tests
use semadb.Base.{
  Bool, List, Option, [], if◌then◌else◌, leb, ltb, none, some, suc, zero, ℕ, ◌+◌, ◌-◌, ◌==◌, ◌∷◌,
}
use semadb.Base.Assoc.{remove}
use semadb.Conversion.{Bytes}
use semadb.Diskstore.Order.{bytes_key}

pub record SharedCacheElem (C : Type 0) : Type 0 where
  pub item : C
  pub last_accessed : ℕ

abbrev pub Caches : Type 0 → Type 0
Caches C = List (Bytes × SharedCacheElem C)

-- -1 is no limit; no other number below 0 stands for a limit
pub data MaxSize : Type 0 where
  unlimited : MaxSize
  bytes : ℕ → MaxSize

pub record Manager (C : Type 0) : Type 0 where
  pub max_size : MaxSize
  pub shared_caches : Caches C

module _ {C : Type 0} where
  pub release : Manager C → Bytes → Manager C
  release m name = record m { shared_caches = remove name m.shared_caches }

  unfoldable pub insert_by_access : Bytes → SharedCacheElem C → Caches C → Caches C
  insert_by_access n e [] = (n, e) ∷ []
  insert_by_access n e ((k, f) ∷ l) =
      let rest = insert_by_access n e l in
      if ltb f.last_accessed e.last_accessed then (k, f) ∷ rest else (n, e) ∷ (k, f) ∷ l

  -- `slices.SortFunc` by the time of the last access
  unfoldable pub by_access : Caches C → Caches C
  by_access [] = []
  by_access ((n, e) ∷ l) = insert_by_access n e (by_access l)

module _ {C : Type 0} (size_in_memory : C → ℕ) where
  unfoldable pub total_size : Caches C → ℕ
  total_size [] = 0
  total_size ((n, e) ∷ m) = size_in_memory e.item + total_size m

  -- the loop over the sorted caches
  unfoldable pub prune_oldest : ℕ → Caches C → ℕ → Caches C → Caches C
  prune_oldest limit [] total m = m
  prune_oldest limit ((n, e) ∷ l) total m =
      let pruned = prune_oldest limit l (total - size_in_memory e.item) (remove n m) in
      if leb total limit then m else pruned

  -- 0 keeps nothing
  unfoldable pub prune_to : ℕ → Caches C → Caches C
  prune_to limit m =
      let total = total_size m in
      if limit == 0
      then []
      else if leb total limit
      then m
      else prune_oldest limit (by_access m) total m

  pub check_and_prune : Manager C → Manager C
  check_and_prune m = elim m.max_size [
    | unlimited ↦ m
    | bytes limit ↦ record m { shared_caches = prune_to limit m.shared_caches }
  ]
