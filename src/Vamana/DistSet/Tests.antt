-- ===== src/Vamana/DistSet/Tests.antt =====
-- A search set of capacity two, and the sort of a list with an unordered tail. The distances are the
-- float32 patterns of small numbers.
use semadb.Base.{arith, elem, false, refl, ℕ, [], ◌%◌, ◌+◌, ◌||◌, ◌∷◌, ◌≡◌}
use semadb.Base.Float.{IsNumber32, is_nan32}
use semadb.Base.Result.{ok, panic}
use semadb.Vamana.DistSet.{
  DistSet, add_new, add_one, add_with_limit, check_and_visit, last, new_dist_set, new_elem,
}
use semadb.Vamana.DistSet.Closest.{IsClosest, add_with_limit-IsClosest, new_dist_set-IsClosest}

-- the distance of the point `p`: a small positive float32
abbrev near : ℕ → ℕ
near p = 0x3f800000 + p % 1000

near-IsNumber32 : (p : ℕ) → IsNumber32 (near p)
unfolding is_nan32
near-IsNumber32 p = ground arith

-- no room at all: the limit is an index out of range
no_capacity : add_with_limit near (new_dist_set 0) (5 ∷ []) ≡ panic
unfolding add_with_limit add_one add_new new_dist_set check_and_visit last
no_capacity = refl

add_with_limit-IsClosest_example :
    (ds' : DistSet) × (add_with_limit near (new_dist_set 2) (7 ∷ 3 ∷ 5 ∷ 3 ∷ []) ≡ ok ds')
    × IsClosest near ds'
    × (ds'.capacity ≡ 2)
    × ((q : ℕ) → elem q ds'.visit_set ≡ (elem q (7 ∷ 3 ∷ 5 ∷ 3 ∷ []) || false))
unfolding new_dist_set
add_with_limit-IsClosest_example =
    add_with_limit-IsClosest near near-IsNumber32 (new_dist_set 2) (7 ∷ 3 ∷ 5 ∷ 3 ∷ [])
      (new_dist_set-IsClosest near 2) (omega arith)

-- the first item is in order, the others are not
abbrev unsorted : DistSet
unsorted = record {
  items = new_elem 7 0x3f800007 ∷ new_elem 3 0x3f800003 ∷ new_elem 5 0x3f800005 ∷ [];
  capacity = 3;
  visit_set = 7 ∷ 3 ∷ 5 ∷ [];
  sorted_until = 1;
}
