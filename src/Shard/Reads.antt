-- ===== src/Shard/Reads.antt =====
-- shard/shard.go: a search of a shard, from what the indexes found to the points, and the page that is
-- asked for. The bitmaps are a parameter, with their iterator as the list of their numbers. The selection
-- and the sorting between the two parts are not modelled. Offset and limit are not negative, and their
-- sum stays within an int.
pub mod Pages
mod Tests
use semadb.Base.{
  List, Option, [], drop, if◌then◌else◌, length, min, take, ℕ, ◌+◌, ◌-◌, ◌==◌, ◌++◌, ◌∷◌,
}
use semadb.Base.Result.{Result, ok, ◌>>=◌}
use semadb.Conversion.{Bytes}
use semadb.Diskstore.{MemBucket}
use semadb.Inverted.Index.{Bitmaps}
use semadb.Shard.Points.{Point, get_point_by_node_id}

-- models.SearchResult, with its distance and its scores together, and without the decoded data
pub record SearchResult (R : Type 0) : Type 0 where
  pub node_id : ℕ
  pub point : Point
  pub scores : R

module _ {R S : Type 0} (uuid_from_bytes : Bytes → Option Bytes) (bitmaps : Bitmaps S)
    (numbers_of : S → List ℕ) (no_scores : R) where
  -- the loop over the ordered results; the set loses their ids
  pub backfill : MemBucket → S → List (SearchResult R) → Result (List (SearchResult R) × S)
  backfill b set [] = ok ([], set)
  backfill b set (r ∷ results) = do
    sp ← get_point_by_node_id uuid_from_bytes b r.node_id
    (rest, set') ← backfill b (bitmaps.checked_remove set r.node_id).1 results
    ok (record r { point = sp.point } ∷ rest, set')

  -- the loop over the ids that are left
  pub append_missing : MemBucket → List ℕ → Result (List (SearchResult R))
  append_missing b [] = ok []
  append_missing b (id ∷ ids) = do
    sp ← get_point_by_node_id uuid_from_bytes b id
    rest ← append_missing b ids
    ok (record { node_id = id; point = sp.point; scores = no_scores } ∷ rest)

  pub read_results : MemBucket → S → List (SearchResult R) → Result (List (SearchResult R))
  read_results b set results = do
    (filled, set') ← backfill b set results
    missing ← append_missing b (numbers_of set')
    ok (filled ++ missing)

-- `results[min(offset, n):min(offset+limit, n)]`, where no limit is the number of all results
unfoldable pub page {ℓ} : {A : Type ℓ} → ℕ → ℕ → List A → List A
page offset limit results =
    let n = length results in
    let count = if limit == 0 then n else limit in
    let first = min offset n in take (min (offset + count) n - first) (drop first results)
