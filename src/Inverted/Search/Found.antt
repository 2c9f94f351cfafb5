-- ===== src/Inverted/Search/Found.antt =====
-- What a search finds: the points of the terms that the operator asks for.
use semadb.Base.{
  none, some, Bool, Option-cases, [], ap, arith, false, inl, inr, not, refl, sym, true, ℕ, ◌&&◌,
  ◌∙◌, ◌≡◌, ◌↔◌,
}
use semadb.Base.Result.{Result, ok}
use semadb.Conversion.{Bytes}
use semadb.Diskstore
use semadb.Diskstore.{MemBucket, Pairs, after_end, before_start, visit}
use semadb.Diskstore.Laws.{IsMap}
use semadb.Diskstore.Order.{bytes_eq, bytes_key}
use semadb.Diskstore.Scan.{
  in_range-bounds, Ascending-UniqueKeys, for_each-visit, get-entries, lookup-select,
  prefix_scan_exact, range_scan_exact, select, select-UniqueKeys,
}
use semadb.Inverted.Index.{
  Bitmaps, IndexInverted, Operator, contains_all, contains_any, equals, find, get_set_cache_item,
  greater_or_eq, greater_than, in_range, less_or_eq, less_than, not_equals, store, starts_with,
  unknown,
}
use semadb.Inverted.Index.Flushed.{key_test}
use semadb.Inverted.Index.Posted.{IsBitmaps, IsReadable, contains_read, is_posted, is_stored}
use semadb.Inverted.Search.{add_other, add_set, search}
use semadb.Inverted.Search.Collected.{Collects, range_lem, select_lem, visit-add_other}
use semadb.Inverted.Search.Scanned.{Mirrors}
use semadb.Inverted.Terms.{IsTerms, Terms}

module _ {T : Type 0} (terms : Terms T) (below : T → T → Bool) where
  -- the terms that an operator asks for
  unfoldable pub matches : Operator → T → T → T → Bool
  matches equals query end_query t = terms.same query t
  matches not_equals query end_query t = not (terms.same query t)
  matches starts_with query end_query t =
      Diskstore.Scan.starts_with (terms.to_key query) (terms.to_key t)
  matches greater_than query end_query t = below query t
  matches greater_or_eq query end_query t = not (below t query)
  matches less_than query end_query t = below t query
  matches less_or_eq query end_query t = not (below query t)
  matches in_range query end_query t = not (below t query) && not (below end_query t)
  matches _ query end_query t = false

-- the operators of a search of a single value
unfoldable pub is_search : Operator → Bool
is_search contains_all = false
is_search contains_any = false
is_search unknown = false
is_search _ = true

module _ {T S : Type 0} (terms : Terms T) (bitmaps : Bitmaps S) (IsValue : T → Type 0)
    (below : T → T → Bool) (laws : IsTerms terms IsValue below) (sets : IsBitmaps bitmaps)
    (b : MemBucket) (unique : IsMap b) (readable : IsReadable terms bitmaps IsValue b) where
  -- the outcome of a search: a set of exactly the points of the terms that the operator asks for
  abbrev pub Finds : Operator → T → T → Result (S × IndexInverted T S) → Type 0
  Finds operator query end_query r =
      (s : S) × (inv' : IndexInverted T S) × (r ≡ ok (s, inv'))
      × ((x : ℕ)
          → (bitmaps.contains s x ≡ true) ↔ (
              (t : T) × IsValue t
              × (matches terms below operator query end_query t ≡ true)
              × (is_stored terms bitmaps b t x ≡ true)))

  -- the test on the key is the test on the term
  by_terms :
      (operator : Operator) (query end_query : T) (p : Bytes → Bool)
      (r : Result (S × IndexInverted T S))
      → ((t : T) → IsValue t → p (terms.to_key t) ≡ matches terms below operator query end_query t)
      → Collects terms bitmaps IsValue below laws sets b unique readable p r
      → Finds operator query end_query r
  unfolding Collects
  by_terms operator query end_query p r same (s, inv', run, has) = (
    s,
    inv',
    run,
    λ x. (
      λ h.
          let (t, value, passes, here) = (has x).0 h in
          (t, value, sym (same t value) ∙ passes, here),
      λ (t, value, passes, here). (has x).1 (t, value, same t value ∙ passes, here),
    ),
  )

  same_turned : (t u : T) → terms.same t u ≡ terms.same u t
  same_turned t u = ground (arith, laws.same_sym t u, laws.same_sym u t)

  -- the points of the one term that is asked for
  at_query :
      (query end_query : T) (s : S) (x : ℕ)
      → IsValue query
      → bitmaps.contains s x ≡ is_stored terms bitmaps b query x
      → (bitmaps.contains s x ≡ true) ↔ (
          (t : T) × IsValue t
          × (matches terms below equals query end_query t ≡ true)
          × (is_stored terms bitmaps b t x ≡ true))
  unfolding matches
  at_query query end_query s x q has = (
    λ h. (query, q, (laws.same_iff query query q q).1 refl, sym has ∙ h),
    λ (t, value, same, here).
        has
        ∙ ap (λ u. is_stored terms bitmaps b u x) ((laws.same_iff query t q value).0 same)
        ∙ here,
  )

  equals_lem :
      (inv : IndexInverted T S) (query end_query : T)
      → IsValue query
      → inv.bucket ≡ b
      → Mirrors terms bitmaps IsValue b inv
      → Finds equals query end_query (search terms bitmaps inv query end_query equals)
  unfolding search get_set_cache_item is_posted is_stored contains_read
  equals_lem inv query end_query q same mirrors =
      elim (Option-cases (find terms query inv.set_cache)) [
        | inr (item, cached) ↦ (
          item.set,
          inv,
          rw (search, get_set_cache_item, cached) refl,
          λ x.
              at_query query end_query item.set x q
                (sym (rw (is_posted, cached) refl) ∙ mirrors query x q),
        )
        | inl absent ↦
            let (s, read) = (readable (terms.to_key query)).0 in
            (
              s,
              record inv {
                set_cache = store terms query (record { set = s; is_dirty = false }) inv.set_cache;
              },
              rw (search, get_set_cache_item, absent, same, read) refl,
              λ x. at_query query end_query s x q (rw (is_stored, read) refl),
            )
      ]

  -- On a bucket whose keys are unique and those of values, and whose values are the bytes of sets, a
  -- search of an index whose cache agrees with the bucket succeeds for the eight operators of a single
  -- value, and finds exactly the points that the bucket has under some value that the operator asks for.
  -- (The two ends of a range are themselves in it.)
  pub search_lem :
      (inv : IndexInverted T S) (operator : Operator) (query end_query : T)
      → is_search operator ≡ true
      → IsValue query
      → IsValue end_query
      → inv.bucket ≡ b
      → Mirrors terms bitmaps IsValue b inv
      → Finds operator query end_query (search terms bitmaps inv query end_query operator)
  unfolding search matches is_search before_start after_end
  search_lem inv equals query end_query known q e same mirrors =
      equals_lem inv query end_query q same mirrors
  search_lem inv not_equals query end_query known q e same mirrors =
      by_terms not_equals query end_query (λ k. not (bytes_eq k (terms.to_key query))) _
        (λ t v.
          ap not (key_test terms bitmaps IsValue below laws sets t query v q ∙ same_turned t query))
        (select_lem terms bitmaps IsValue below laws sets b unique readable inv _ _ mirrors (
          for_each-visit _ _ _
          ∙ ap (λ c. visit (add_other terms bitmaps (terms.to_key query)) c.entries ([], inv)) same
          ∙ visit-add_other terms bitmaps IsValue below laws sets b unique readable
              (terms.to_key query) b.entries ([], inv)))
  search_lem inv starts_with query end_query known q e same mirrors =
      by_terms starts_with query end_query (Diskstore.Scan.starts_with (terms.to_key query)) _
        (λ t v. refl)
        (select_lem terms bitmaps IsValue below laws sets b unique readable inv _ _ mirrors (
          prefix_scan_exact _ _ _ _
          ∙ ap
              (λ c.
                visit (add_set terms bitmaps)
                  (select (Diskstore.Scan.starts_with (terms.to_key query)) c.entries) ([], inv))
              same))
  search_lem inv greater_than query end_query known q e same mirrors =
      by_terms greater_than query end_query _ _
        (λ t v.
          in_range-bounds (some (terms.to_key query)) none false (terms.to_key t)
          ∙ ground (arith, laws.to_key_order query t q v))
        (range_lem terms bitmaps IsValue below laws sets b unique readable inv _ _ _ same mirrors)
  search_lem inv greater_or_eq query end_query known q e same mirrors =
      by_terms greater_or_eq query end_query _ _
        (λ t v.
          in_range-bounds (some (terms.to_key query)) none true (terms.to_key t)
          ∙ ground (arith, laws.to_key_order t query v q))
        (range_lem terms bitmaps IsValue below laws sets b unique readable inv _ _ _ same mirrors)
  search_lem inv less_than query end_query known q e same mirrors =
      by_terms less_than query end_query _ _
        (λ t v.
          in_range-bounds none (some (terms.to_key query)) false (terms.to_key t)
          ∙ ground (arith, laws.to_key_order t query v q))
        (range_lem terms bitmaps IsValue below laws sets b unique readable inv _ _ _ same mirrors)
  search_lem inv less_or_eq query end_query known q e same mirrors =
      by_terms less_or_eq query end_query _ _
        (λ t v.
          in_range-bounds none (some (terms.to_key query)) true (terms.to_key t)
          ∙ ground (arith, laws.to_key_order query t q v))
        (range_lem terms bitmaps IsValue below laws sets b unique readable inv _ _ _ same mirrors)
  search_lem inv in_range query end_query known q e same mirrors =
      by_terms in_range query end_query _ _
        (λ t v.
          in_range-bounds (some (terms.to_key query)) (some (terms.to_key end_query)) true
            (terms.to_key t)
          ∙ ground (arith, laws.to_key_order t query v q, laws.to_key_order end_query t e v))
        (range_lem terms bitmaps IsValue below laws sets b unique readable inv _ _ _ same mirrors)
  search_lem inv contains_all query end_query known q e same mirrors = absurd (ground arith)
  search_lem inv contains_any query end_query known q e same mirrors = absurd (ground arith)
  search_lem inv unknown query end_query known q e same mirrors = absurd (ground arith)
