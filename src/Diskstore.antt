-- ===== src/Diskstore.antt =====
-- diskstore/memstore.go: the in-memory bucket, a map from keys to values that may be read-only.
-- The bolt bucket of diskstore/bbolt.go keeps to the same interface over a third-party store.
-- A callback of a scan is a function of the state that it captures, and may stop the scan by an error.
pub mod Order
pub mod Scan
pub mod Laws
mod Tests
use semadb.Base.{
  Bool, List, Option, false, length, ltb, none, not, some, take, true, [], ◌&&◌, if◌then◌else◌, ◌∷◌,
}
use semadb.Base.Assoc.{insert, lookup, remove}
use semadb.Base.Result.{Result, err, ok, read_only, ◌>>=◌}
use semadb.Conversion.{Bytes}
use semadb.Diskstore.Order.{bytes_eq, bytes_key, bytes_lt, sort_pairs}

abbrev pub Pairs : Type 0
Pairs = List (Bytes × Bytes)

pub record MemBucket : Type 0 where
  pub entries : Pairs
  pub is_read_only : Bool

pub new_mem_bucket : Bool → MemBucket
new_mem_bucket read_only_flag = record { entries = []; is_read_only = read_only_flag }

unfoldable pub get : MemBucket → Bytes → Option Bytes
get b k = lookup k b.entries

unfoldable pub put : MemBucket → Bytes → Bytes → Result MemBucket
put b k v =
    if b.is_read_only then err read_only else ok (record b { entries = insert k v b.entries })

pub delete : MemBucket → Bytes → Result MemBucket
delete b k =
    if b.is_read_only then err read_only else ok (record b { entries = remove k b.entries })

module _ {S : Type 0} (f : Bytes → Bytes → S → Result S) where
  -- `for k, v := range pairs { if err := f(k, v); err != nil { return err } }`
  unfoldable pub visit : Pairs → S → Result S
  visit [] s = ok s
  visit ((k, v) ∷ m) s = do s' ← f k v s; visit m s'

  pub for_each : MemBucket → S → Result S
  for_each b s = visit b.entries s

  -- the test on the length stands before the slice `k[:len(prefix)]`
  unfoldable pub prefix_loop : Bytes → Pairs → S → Result S
  prefix_loop prefix [] s = ok s
  prefix_loop prefix ((k, v) ∷ m) s =
      let rest = prefix_loop prefix m in
      if ltb (length k) (length prefix)
      then rest s
      else if bytes_eq (take (length prefix) k) prefix
      then (do s' ← f k v s; rest s')
      else rest s

  unfoldable pub prefix_scan : MemBucket → Bytes → S → Result S
  prefix_scan b prefix s = prefix_loop prefix b.entries s

-- `continue`: the key lies before the start of the range
unfoldable pub before_start : Option Bytes → Bool → Bytes → Bool
before_start none inclusive k = false
before_start (some start) true k = bytes_lt k start
before_start (some start) false k = not (bytes_lt start k)

-- `break`: the key lies behind the end of the range
unfoldable pub after_end : Option Bytes → Bool → Bytes → Bool
after_end none inclusive k = false
after_end (some end_key) true k = bytes_lt end_key k
after_end (some end_key) false k = not (bytes_lt k end_key)

module _ {S : Type 0} (f : Bytes → Bytes → S → Result S) where
  range_loop : Option Bytes → Option Bytes → Bool → Pairs → S → Result S
  range_loop start end_key inclusive [] s = ok s
  range_loop start end_key inclusive ((k, v) ∷ m) s =
      let rest = range_loop start end_key inclusive m in
      if before_start start inclusive k
      then rest s
      else if after_end end_key inclusive k
      then ok s
      else (do s' ← f k v s; rest s')

  pub range_scan : MemBucket → Option Bytes → Option Bytes → Bool → S → Result S
  range_scan b start end_key inclusive s =
      range_loop start end_key inclusive (sort_pairs b.entries) s
