-- ===== src/Text/Search.antt =====
-- The first half of the search of a text index, in shard/index/text/text.go: the set of the documents
-- that are found. How they are scored and ranked is not modelled.
pub mod Found
use semadb.Base.{Bool, List, Option, [], false, if◌then◌else◌, map, none, some, true, ℕ, ◌++◌, ◌∷◌}
use semadb.Base.Result.{Result, ok, ◌>>=◌}
use semadb.Conversion.{Bytes}
use semadb.Diskstore.Order.{bytes_key}
use semadb.Inverted.Index.{Bitmaps, Operator, contains_all}
use semadb.Shard.ItemCache
use semadb.Shard.ItemCache.{ItemCache}
use semadb.Text.{IndexText, TermSet, count_tokens, set_storable}

unfoldable pub is_contains_all : Operator → Bool
is_contains_all contains_all = true
is_contains_all _ = false

-- the terms of the query, each once
unfoldable pub query_terms : List Bytes → List Bytes
query_terms tokens = map (λ e. e.0) (count_tokens tokens [])

module _ {S : Type 0} (bitmaps : Bitmaps S) (size_in_bytes : S → ℕ) where
  pub collect_sets :
      List Bytes → ItemCache Bytes (TermSet S) → Result (List S × ItemCache Bytes (TermSet S))
  collect_sets [] c = ok ([], c)
  collect_sets (t ∷ terms) c = do
    (item, c') ← ItemCache.get (set_storable bitmaps size_in_bytes) c t
    (sets, c'') ← collect_sets terms c'
    ok (item.set ∷ sets, c'')

  filtered : Option S → S → S
  filtered none set = set
  filtered (some filter) set = bitmaps.fast_and (set ∷ filter ∷ [])

  pub search_set :
      (Bytes → Result (List Bytes))
      → Bytes
      → Operator
      → Option S
      → IndexText S
      → Result (S × IndexText S)
  search_set analyser value operator filter index = do
    tokens ← analyser value
    (sets, c) ← collect_sets (query_terms tokens) index.set_cache
    let final = if is_contains_all operator then bitmaps.fast_and sets else bitmaps.fast_or sets in
        ok (filtered filter final, record index { set_cache = c })
