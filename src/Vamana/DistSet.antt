-- ===== src/Vamana/DistSet.antt =====
-- shard/index/vamana/distset.go: the set of points, ordered by their distance to a query, that the
-- greedy search and the pruning work on. A point is its id, a distance is the bit pattern of a
-- float32, and the visited set (a map or a bit set) is the list of the ids in it.
pub mod Sift
mod Init
pub mod Closest
pub mod Sorting
mod Tests
use mathlib.Core.List.{reverse}
use semadb.Base.{
  Bool, List, Option, drop, elem, false, length, ltb, none, some, suc, take, true, zero, ℕ, [],
  ◌&&◌, ◌++◌, ◌+◌, ◌-◌, ◌==◌, if◌then◌else◌, ◌∷◌,
}
use semadb.Base.Float.{float32_lt}
use semadb.Base.Result.{Result, ok, panic, ◌>>=◌}

pub record DistSetElem : Type 0 where
  pub point : ℕ
  pub distance : ℕ
  pub visited : Bool
  pub prune_removed : Bool

pub record DistSet : Type 0 where
  pub items : List DistSetElem
  pub capacity : ℕ
  pub visit_set : List ℕ
  pub sorted_until : ℕ

pub new_dist_set : ℕ → DistSet
new_dist_set capacity = record { items = []; capacity = capacity; visit_set = []; sorted_until = 0 }

-- `CheckAndVisit`: whether the id was there, and the set with it
pub check_and_visit : ℕ → List ℕ → Bool × List ℕ
check_and_visit id set = if elem id set then (true, set) else (false, id ∷ set)

abbrev pub new_elem : ℕ → ℕ → DistSetElem
new_elem p distance = record {
  point = p;
  distance = distance;
  visited = false;
  prune_removed = false;
}

-- the loop that swaps a new item to the left while it is closer than its left neighbour; the items
-- to its left, from right to left
pub sift : DistSetElem → List DistSetElem → List DistSetElem
sift x [] = x ∷ []
sift x (y ∷ left) = if float32_lt x.distance y.distance then y ∷ sift x left else x ∷ y ∷ left

-- the new item is behind all the items, and is then swapped into its place
pub insert_last : List DistSetElem → DistSetElem → List DistSetElem
insert_last items x = reverse (sift x (reverse items))

-- the items without the last one
pub but_last : List DistSetElem → List DistSetElem
but_last items = take (length items - 1) items

-- `items[len(items)-1]`
pub last : List DistSetElem → Option DistSetElem
last [] = none
last (x ∷ []) = some x
last (x ∷ y ∷ l) = last (y ∷ l)

module _ (dist_fn : ℕ → ℕ) where
  -- a point that was not seen before; with no capacity at all `items[limit-1]` is out of range
  pub add_new : DistSet → ℕ → Result DistSet
  add_new ds p =
      let distance = dist_fn p in
      let x = new_elem p distance in
      if length ds.items == ds.capacity
      then elim (last ds.items) [
        | none ↦ panic
        | some furthest ↦
            if float32_lt furthest.distance distance
            then ok ds
            else ok (record ds { items = insert_last (but_last ds.items) x })
      ]
      else ok (record ds { items = insert_last ds.items x; sorted_until = ds.sorted_until + 1 })

  -- `AddWithLimit` for one point
  pub add_one : DistSet → ℕ → Result DistSet
  add_one ds p =
      let (seen, set) = check_and_visit p ds.visit_set in
      if seen then ok ds else add_new (record ds { visit_set = set }) p

  pub add_with_limit : DistSet → List ℕ → Result DistSet
  add_with_limit ds [] = ok ds
  add_with_limit ds (p ∷ points) = do ds' ← add_one ds p; add_with_limit ds' points

  -- `Add`
  pub add : DistSet → List ℕ → DistSet
  add ds [] = ds
  add ds (p ∷ points) =
      let (seen, set) = check_and_visit p ds.visit_set in
      add
        (if seen
          then ds
          else record ds { items = ds.items ++ new_elem p (dist_fn p) ∷ []; visit_set = set })
        points

pub add_already_unique : DistSet → List DistSetElem → DistSet
add_already_unique ds items = record ds { items = ds.items ++ items }

-- the insertion sort of `Sort`, from the first item that is not known to be in order
pub sort_rest : List DistSetElem → List DistSetElem → List DistSetElem
sort_rest sorted [] = sorted
sort_rest sorted (x ∷ rest) = sort_rest (insert_last sorted x) rest

pub sort : DistSet → DistSet
sort ds = record ds {
  items = sort_rest (take ds.sorted_until ds.items) (drop ds.sorted_until ds.items);
  sorted_until = length ds.items;
}
