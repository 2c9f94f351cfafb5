-- ===== src/Vamana/Prune/Tests.antt =====
-- Pruning of points on a line. The distance of two points is the float32 pattern that lies their
-- difference above 1, and the product with alpha adds to it.
use semadb.Base.{
  All, Distinct, arith, elem, false, length, not, refl, true, ℕ, [], ◌+◌, ◌-◌, ◌==◌, ◌||◌, ◌∷◌, ◌≡◌,
  ◌≤◌,
}
use semadb.Base.Float.{float32_lt}
use semadb.Vamana.DistSet.{DistSet, new_elem}
use semadb.Vamana.DistSet.Sift.{points}
use semadb.Vamana.Prune.{add_neighbour, mark, mark_one, prune_loop, robust_prune}
use semadb.Vamana.Prune.Degree.{robust_prune_bounds}
use semadb.Vamana.Prune.Cover.{covered, robust_prune_covers}

abbrev apart : ℕ → ℕ → ℕ
apart a b = 0x3f800000 + ((a - b) + (b - a))

abbrev add_alpha : ℕ → ℕ → ℕ
add_alpha alpha d = alpha + d

-- seen from the point 10: the points 11, 12, 5 and 10 itself, closest first
abbrev line : DistSet
line = record {
  items =
      new_elem 10 0x3f800000
      ∷ new_elem 11 0x3f800001
      ∷ new_elem 12 0x3f800002
      ∷ new_elem 5 0x3f800005
      ∷ [];
  capacity = 4;
  visit_set = 10 ∷ 11 ∷ 12 ∷ 5 ∷ [];
  sorted_until = 4;
}

-- 11 hides 12, not 5
pruned_line : robust_prune apart add_alpha 0 4 10 line ≡ 11 ∷ 5 ∷ []
unfolding robust_prune prune_loop mark mark_one add_neighbour float32_lt
pruned_line = refl

line-Distinct : Distinct (points line.items)
line-Distinct = ground arith

robust_prune_bounds_example :
    (length (robust_prune apart add_alpha 0 2 10 line) ≤ 2)
    × (elem 10 (robust_prune apart add_alpha 0 2 10 line) ≡ false)
    × Distinct (robust_prune apart add_alpha 0 2 10 line)
    × ((q : ℕ)
        → (not (elem q (robust_prune apart add_alpha 0 2 10 line)) || elem q (points line.items))
          ≡ true)
robust_prune_bounds_example =
    robust_prune_bounds apart add_alpha 0 2 10 line (omega arith) line-Distinct

robust_prune_covers_example :
    All
      (λ e.
        (e.point == 10
          || covered apart add_alpha 0 2
              (robust_prune apart add_alpha 0 2 10 line)
              e.point
              e.distance)
        ≡ true)
      line.items
robust_prune_covers_example =
    robust_prune_covers apart add_alpha 0 2 10 line (refl, (refl, (refl, (refl, tt))))
