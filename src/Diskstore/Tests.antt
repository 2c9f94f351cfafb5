-- ===== src/Diskstore/Tests.antt =====
-- Runs of the bucket and its scans, and their laws at a small bucket.
use semadb.Base.{List, false, none, refl, some, true, [], ◌++◌, if◌then◌else◌, ◌∷◌, ◌≡◌}
use semadb.Base.Assoc.{lookup}
use semadb.Base.Result.{Result, err, ok, read_only}
use semadb.Conversion.{Bytes}
use semadb.Diskstore.{
  MemBucket, Pairs, after_end, before_start, get, new_mem_bucket, put, range_loop, range_scan,
  visit,
}
use semadb.Diskstore.Order.{Ascending, bytes_key, bytes_lt, sort_pairs}
use semadb.Diskstore.Laws.{IsMap}
use semadb.Diskstore.Scan.{in_range, range_scan_exact}

abbrev fruit : MemBucket
fruit = record {
  entries = (b'b' ∷ b'1' ∷ [], 20 ∷ []) ∷ (b'a' ∷ [], 10 ∷ []) ∷ (b'b' ∷ [], 30 ∷ []) ∷ [];
  is_read_only = false;
}

-- a callback that collects the keys
abbrev collect : Bytes → Bytes → List Bytes → Result (List Bytes)
collect k v seen = ok (seen ++ k ∷ [])

scan_order :
    range_scan collect fruit (some (b'a' ∷ [])) (some (b'b' ∷ [])) true []
    ≡ ok ((b'a' ∷ []) ∷ (b'b' ∷ []) ∷ [])
unfolding range_scan range_loop before_start after_end bytes_lt sort_pairs
scan_order = refl

scan_exclusive :
    range_scan collect fruit (some (b'a' ∷ [])) none false []
    ≡ ok ((b'b' ∷ []) ∷ (b'b' ∷ b'1' ∷ []) ∷ [])
unfolding range_scan range_loop before_start after_end bytes_lt sort_pairs
scan_exclusive = refl

refused : put (new_mem_bucket true) (1 ∷ []) (2 ∷ []) ≡ err read_only
unfolding put new_mem_bucket
refused = refl

fruit-IsMap : IsMap fruit
unfolding lookup
fruit-IsMap = (refl, (refl, (refl, tt)))

range_scan_exact_example :
    (visited : Pairs) × ((s : List Bytes)
      → range_scan collect fruit (some (b'a' ∷ [])) none false s ≡ visit collect visited s)
    × Ascending visited
    × ((k : Bytes)
        → lookup k visited
          ≡ (if in_range (some (b'a' ∷ [])) none false k then get fruit k else none))
range_scan_exact_example = range_scan_exact collect fruit (some (b'a' ∷ [])) none false fruit-IsMap
