-- ===== src/Inverted/Search/Collected.antt =====
-- A scan of the entries whose key passes a test, and the points that its sets have.
use mathlib.Core.Path.{fun_ext}
use semadb.Base.{
  Bool, Bool-cases, List, Option, [], ap, arith, if◌then◌else◌, inl, inr, none, not, refl, some,
  sym, true, ℕ, ◌∙◌, ◌∷◌, ◌≡◌, ◌↔◌,
}
use semadb.Base.Assoc.{UniqueKeys, lookup}
use semadb.Base.Result.{Result, ok, ◌>>=◌}
use semadb.Conversion.{Bytes}
use semadb.Diskstore
use semadb.Diskstore.{MemBucket, Pairs, after_end, before_start, visit}
use semadb.Diskstore.Laws.{IsMap}
use semadb.Diskstore.Order.{bytes_eq, bytes_eq_iff, bytes_eq_refl, bytes_key}
use semadb.Diskstore.Scan.{
  Ascending-UniqueKeys, for_each-visit, get-entries, lookup-select, prefix_scan_exact,
  range_scan_exact, select, select-UniqueKeys,
}
use semadb.Inverted.Index.{Bitmaps, IndexInverted, read_set}
use semadb.Inverted.Index.Posted.{IsBitmaps, IsReadable, any_contains, contains_read, is_stored}
use semadb.Inverted.Search.{Scan, add_other, add_set, search_range, union, united}
use semadb.Inverted.Search.Scanned.{IsEntry-of_readable, Mirrors, Scans, any_stored, visit-add_set}
use semadb.Inverted.Terms.{IsTerms, Terms}

module _ {T S : Type 0} (terms : Terms T) (bitmaps : Bitmaps S) (IsValue : T → Type 0)
    (below : T → T → Bool) (laws : IsTerms terms IsValue below) (sets : IsBitmaps bitmaps)
    (b : MemBucket) (unique : IsMap b) (readable : IsReadable terms bitmaps IsValue b) where
  contains-union :
      (l : List S) (x : ℕ) → bitmaps.contains (union terms bitmaps l) x ≡ any_contains bitmaps x l
  unfolding union any_contains
  contains-union [] x = sets.blank_lem x
  contains-union (s ∷ []) x = ground arith
  contains-union (s ∷ r ∷ l) x = sets.fast_or_lem (s ∷ r ∷ l) x

  -- the set has the points of the terms whose key passes the test
  unfoldable pub Collects : (Bytes → Bool) → Result (S × IndexInverted T S) → Type 0
  Collects p r =
      (s : S) × (inv' : IndexInverted T S) × (r ≡ ok (s, inv'))
      × ((x : ℕ)
          → (bitmaps.contains s x ≡ true) ↔ (
              (t : T) × IsValue t
              × (p (terms.to_key t) ≡ true)
              × (is_stored terms bitmaps b t x ≡ true)))

  -- a point that some entry has, with the entry
  any_stored-lookup :
      (m : Pairs) (x : ℕ)
      → UniqueKeys m
      → any_stored terms bitmaps IsValue m x ≡ true
      → (k : Bytes) × (v : Bytes) × (lookup k m ≡ some v)
        × (contains_read terms bitmaps (bitmaps.from_bytes v) x ≡ true)
  unfolding any_stored lookup
  any_stored-lookup [] x u h = absurd (ground arith)
  any_stored-lookup ((k, v) ∷ m) x u h =
      elim (Bool-cases (contains_read terms bitmaps (bitmaps.from_bytes v) x)) [
        | inl here ↦ (k, v, rw bytes_eq_refl refl, here)
        | inr later ↦
            let (j, w, found, has) = any_stored-lookup m x u.1 (ground arith) in
            (j, w, ground (arith, bytes_eq_iff k j, u.0), has)
      ]

  lookup-any_stored :
      (m : Pairs) (x : ℕ) (k v : Bytes)
      → lookup k m ≡ some v
      → contains_read terms bitmaps (bitmaps.from_bytes v) x ≡ true
      → any_stored terms bitmaps IsValue m x ≡ true
  unfolding any_stored lookup
  lookup-any_stored [] x k v found has = absurd (ground arith)
  lookup-any_stored ((j, w) ∷ m) x k v found has = elim (Bool-cases (bytes_eq j k)) [
    | inl same ↦ let value : w ≡ v = cc (rw same at found) in rw (any_stored, value, has) refl
    | inr differ ↦
        rw (any_stored, lookup-any_stored m x k v (rw differ at found) has) (ground arith)
  ]

  -- the bytes of a term that has a point
  stored_bytes :
      (t : T) (x : ℕ)
      → is_stored terms bitmaps b t x ≡ true
      → (v : Bytes) × (Diskstore.get b (terms.to_key t) ≡ some v)
        × (contains_read terms bitmaps (bitmaps.from_bytes v) x ≡ true)
  unfolding is_stored read_set contains_read
  stored_bytes t x h = go (Diskstore.get b (terms.to_key t)) refl
    where
      go :
          (o : Option Bytes)
          → Diskstore.get b (terms.to_key t) ≡ o
          → (v : Bytes) × (Diskstore.get b (terms.to_key t) ≡ some v)
            × (contains_read terms bitmaps (bitmaps.from_bytes v) x ≡ true)
      go none e = absurd (ground (arith, rw (is_stored, e) at h, sets.blank_lem x))
      go (some v) e = (v, e, rw (is_stored, e) at h)

  -- a scan of the entries whose key passes a test
  scan_lem :
      (inv : IndexInverted T S) (p : Bytes → Bool) (m : Pairs)
      (scanned : Result (Scan terms bitmaps))
      → Mirrors terms bitmaps IsValue b inv
      → UniqueKeys m
      → ((k : Bytes) → lookup k m ≡ (if p k then Diskstore.get b k else none))
      → scanned ≡ visit (add_set terms bitmaps) m ([], inv)
      → Collects p (united terms bitmaps scanned)
  unfolding Collects united Scans any_contains is_stored read_set
  scan_lem inv p m scanned mirrors u selected run =
      let in_bucket : (k v : Bytes) → lookup k m ≡ some v → Diskstore.get b k ≡ some v =
        λ k v found. ground (arith, selected k) in
      let entries = IsEntry-of_readable terms bitmaps IsValue below laws b m u readable in_bucket in
      let (found, inv', run', mirrors', has) =
        visit-add_set terms bitmaps IsValue below laws b inv [] m entries mirrors in
      (
        union terms bitmaps found,
        inv',
        rw (run, run') refl,
        λ x.
            let count : bitmaps.contains (union terms bitmaps found) x
                ≡ any_stored terms bitmaps IsValue m x =
              contains-union found x ∙ has x ∙ ground arith in
            (
              λ h.
                  let (k, v, here, has_x) = any_stored-lookup m x u (sym count ∙ h) in
                  let at_key = in_bucket k v here in
                  let passes : p k ≡ true = ground (arith, selected k) in
                  elim (readable k).1 [
                    | inl absent ↦ absurd (ground (arith, at_key))
                    | inr (t, value, key) ↦
                        (t, value, rw key passes, rw (is_stored, key, at_key) has_x)
                  ],
              λ (t, value, passes, has_x).
                  let (v, at_key, has_v) = stored_bytes t x has_x in
                  count
                  ∙ lookup-any_stored m x (terms.to_key t) v
                      (selected (terms.to_key t) ∙ rw passes at_key) has_v,
            ),
      )

  pub range_lem :
      (inv : IndexInverted T S) (start end_key : Option Bytes) (inclusive : Bool)
      → inv.bucket ≡ b
      → Mirrors terms bitmaps IsValue b inv
      → Collects
          (Diskstore.Scan.in_range start end_key inclusive)
          (search_range terms bitmaps inv start end_key inclusive)
  unfolding search_range
  range_lem inv start end_key inclusive same mirrors =
      let (m, run, ascending, selected) =
        range_scan_exact (add_set terms bitmaps) b start end_key inclusive unique in
      scan_lem inv (Diskstore.Scan.in_range start end_key inclusive) m _ mirrors
        (Ascending-UniqueKeys m ascending) selected
        (ap (λ c. Diskstore.range_scan (add_set terms bitmaps) c start end_key inclusive ([], inv))
            same
          ∙ run ([], inv))

  pub visit-add_other :
      (query_key : Bytes) (m : Pairs) (scan : Scan terms bitmaps)
      → visit (add_other terms bitmaps query_key) m scan
        ≡ visit (add_set terms bitmaps) (select (λ k. not (bytes_eq k query_key)) m) scan
  unfolding visit select add_other
  visit-add_other query_key [] scan = refl
  visit-add_other query_key ((k, v) ∷ m) scan = elim (Bool-cases (bytes_eq k query_key)) [
    | inl same ↦ rw same (visit-add_other query_key m scan)
    | inr differ ↦ rw differ (
        ap (λ next. add_set terms bitmaps k v scan >>= next)
          (fun_ext λ scan'. visit-add_other query_key m scan'))
  ]

  pub select_lem :
      (inv : IndexInverted T S) (p : Bytes → Bool) (scanned : Result (Scan terms bitmaps))
      → Mirrors terms bitmaps IsValue b inv
      → scanned ≡ visit (add_set terms bitmaps) (select p b.entries) ([], inv)
      → Collects p (united terms bitmaps scanned)
  select_lem inv p scanned mirrors run =
      scan_lem inv p (select p b.entries) scanned mirrors (select-UniqueKeys p b.entries unique)
        (λ k.
          lookup-select p k b.entries ∙ ap (λ r. if p k then r else none) (sym (get-entries b k)))
        run
