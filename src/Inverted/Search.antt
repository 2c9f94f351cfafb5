-- ===== src/Inverted/Search.antt =====
-- shard/index/inverted/inverted.go: the search of an index by an operator. Its scans run over the
-- bucket, and take the set of a term from the cache if that has it.
pub mod Scanned
pub mod Collected
pub mod Found
use semadb.Base.{Bool, List, Option, [], false, if◌then◌else◌, none, some, true, ◌++◌, ◌∷◌}
use semadb.Base.Result.{Result, err, ok, or_panic, other, ◌>>=◌}
use semadb.Conversion.{Bytes}
use semadb.Diskstore
use semadb.Diskstore.Order.{bytes_eq}
use semadb.Inverted.Index.{
  Bitmaps, IndexInverted, Operator, contains_all, contains_any, equals, get_set_cache_item,
  greater_or_eq, greater_than, in_range, less_or_eq, less_than, not_equals, starts_with, unknown,
}
use semadb.Inverted.Terms.{Terms}

module _ {T S : Type 0} (terms : Terms T) (bitmaps : Bitmaps S) where
  -- the sets so far, and the index whose cache grows
  abbrev pub Scan : Type 0
  Scan = List S × IndexInverted T S

  -- the callback of the scans
  pub add_set : Bytes → Bytes → Scan → Result Scan
  add_set k v (sets, inv) = do
    reverse_key ← or_panic (terms.from_key k)
    (item, inv') ← get_set_cache_item terms bitmaps inv reverse_key (some v)
    ok (sets ++ item.set ∷ [], inv')

  -- the callback for `notEquals`
  pub add_other : Bytes → Bytes → Bytes → Scan → Result Scan
  add_other query_key k v scan = if bytes_eq k query_key then ok scan else add_set k v scan

  pub union : List S → S
  union [] = bitmaps.blank
  union (s ∷ []) = s
  union (s ∷ r ∷ sets) = bitmaps.fast_or (s ∷ r ∷ sets)

  pub united : Result Scan → Result (S × IndexInverted T S)
  united scanned = do (sets, inv) ← scanned; ok (union sets, inv)

  -- the range scan behind the switch
  pub search_range :
      IndexInverted T S → Option Bytes → Option Bytes → Bool → Result (S × IndexInverted T S)
  search_range inv start end_key inclusive =
      united (Diskstore.range_scan add_set inv.bucket start end_key inclusive ([], inv))

  pub search : IndexInverted T S → T → T → Operator → Result (S × IndexInverted T S)
  search inv query end_query equals = do
    (item, inv') ← get_set_cache_item terms bitmaps inv query none
    ok (item.set, inv')
  search inv query end_query not_equals =
      united (Diskstore.for_each (add_other (terms.to_key query)) inv.bucket ([], inv))
  search inv query end_query starts_with =
      united (Diskstore.prefix_scan add_set inv.bucket (terms.to_key query) ([], inv))
  search inv query end_query greater_than = search_range inv (some (terms.to_key query)) none false
  search inv query end_query greater_or_eq = search_range inv (some (terms.to_key query)) none true
  search inv query end_query less_than = search_range inv none (some (terms.to_key query)) false
  search inv query end_query less_or_eq = search_range inv none (some (terms.to_key query)) true
  search inv query end_query in_range =
      search_range inv (some (terms.to_key query)) (some (terms.to_key end_query)) true
  search inv query end_query contains_all = err other
  search inv query end_query contains_any = err other
  search inv query end_query unknown = err other
