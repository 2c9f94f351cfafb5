-- ===== src/Vamana/Prune.antt =====
-- `robustPrune` of shard/index/vamana/search.go, over the edge list of shard/index/vamana/node.go.
-- A point is its id. The distance between two points is a parameter, as is the product of two
-- float32, whose hardware arithmetic is not in the source.
pub mod Degree
pub mod Cover
mod Tests
use semadb.Base.{
  Bool, List, elem, false, leb, length, not, suc, true, zero, ℕ, [], ◌&&◌, ◌++◌, ◌+◌, ◌==◌,
  if◌then◌else◌, ◌||◌, ◌∷◌,
}
use semadb.Base.Float.{float32_lt}
use semadb.Vamana.DistSet.{DistSet, DistSetElem}

-- `AddNeighbour`: the edges with the new one, whose count the source returns
pub add_neighbour : List ℕ → ℕ → List ℕ
add_neighbour edges p = edges ++ p ∷ []

pub add_neighbour_if_not_exists : List ℕ → ℕ → List ℕ
add_neighbour_if_not_exists edges p = if elem p edges then edges else add_neighbour edges p

module _ (distance_from : ℕ → ℕ → ℕ) (multiply : ℕ → ℕ → ℕ) (alpha degree_bound : ℕ) where
  -- the body of the inner loop: the closest point removes a point that is, times alpha, closer to
  -- it than to the node
  pub mark_one : ℕ → DistSetElem → DistSetElem
  mark_one closest e =
      if e.prune_removed
      then e
      else if float32_lt (multiply alpha (distance_from closest e.point)) e.distance
      then record e { prune_removed = true }
      else e

  -- the inner loop, over the points behind the closest one
  pub mark : ℕ → List DistSetElem → List DistSetElem
  unfolding mark_one
  mark closest [] = []
  mark closest (e ∷ rest) = mark_one closest e ∷ mark closest rest

  -- the outer loop, by the number of items that are left
  pub prune_loop : ℕ → ℕ → List ℕ → List DistSetElem → List ℕ
  prune_loop zero node edges items = edges
  prune_loop (suc k) node edges [] = edges
  prune_loop (suc k) node edges (e ∷ rest) =
      let skip = prune_loop k node edges rest in
      let edges' = add_neighbour edges e.point in
      let more = prune_loop k node edges' (mark e.point rest) in
      if e.prune_removed || e.point == node
      then skip
      else if leb degree_bound (length edges')
      then edges'
      else more

  -- the edges that are left to a node: its old ones are cleared first
  pub robust_prune : ℕ → DistSet → List ℕ
  robust_prune node candidates = prune_loop (length candidates.items) node [] candidates.items
