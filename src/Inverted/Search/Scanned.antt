-- ===== src/Inverted/Search/Scanned.antt =====
-- A scan of an index collects the sets of the entries that it visits, and its cache says no other than
-- the bucket does.
use semadb.Base.{
  All, Bool, Bool-cases, List, Option-cases, [], ap, arith, false, inl, inr, refl, some, sym, ℕ,
  ◌++◌, ◌||◌, ◌≡◌, ◌∙◌, ◌∷◌,
}
use semadb.Base.Assoc.{UniqueKeys, lookup}
use semadb.Base.Result.{Result, ok}
use semadb.Conversion.{Bytes}
use semadb.Diskstore
use semadb.Diskstore.{MemBucket, Pairs, visit}
use semadb.Diskstore.Order.{bytes_eq_iff, bytes_eq_refl, bytes_key}
use semadb.Inverted.Index.{
  Bitmaps, IndexInverted, SetCacheItem, find, get_set_cache_item, read_set, store,
}
use semadb.Inverted.Index.Posted.{
  IsReadable, any_contains, contains_read, find-store, is_posted, is_stored,
}
use semadb.Inverted.Search.{Scan, add_set}
use semadb.Inverted.Terms.{IsTerms, Terms}

-- what holds of every value that is looked up holds of every entry
All-of_lookup {κ} :
    (P : Bytes × Bytes → Type κ) (m : Pairs)
    → UniqueKeys m
    → ((k v : Bytes) → lookup k m ≡ some v → P (k, v))
    → All P m
unfolding lookup
All-of_lookup P [] u h = tt
All-of_lookup P ((k, v) ∷ m) u h = (
  h k v (rw bytes_eq_refl refl),
  All-of_lookup P m u.1 λ j w found. h j w (ground (arith, bytes_eq_iff k j, u.0)),
)

module _ {T S : Type 0} (terms : Terms T) (bitmaps : Bitmaps S) (IsValue : T → Type 0) where
  -- the entry is in the bucket, under the key of a term and with the bytes of a set
  abbrev pub IsEntry : MemBucket → Bytes × Bytes → Type 0
  IsEntry b (k, v) =
      (t : T) × (s : S) × IsValue t
      × (terms.to_key t ≡ k)
      × (Diskstore.get b k ≡ some v)
      × (bitmaps.from_bytes v ≡ ok s)

  -- some entry has the point
  unfoldable pub any_stored : Pairs → ℕ → Bool
  any_stored [] x = false
  any_stored ((k, v) ∷ m) x = contains_read terms bitmaps (bitmaps.from_bytes v) x || any_stored m x

  -- the cache has of every value what the bucket has
  abbrev pub Mirrors : MemBucket → IndexInverted T S → Type 0
  Mirrors b inv =
      (u : T) (x : ℕ) → IsValue u → is_posted terms bitmaps inv u x ≡ is_stored terms bitmaps b u x

any_contains-snoc :
    {S : Type 0} (bitmaps : Bitmaps S) (x : ℕ) (l : List S) (s : S)
    → any_contains bitmaps x (l ++ s ∷ []) ≡ (any_contains bitmaps x l || bitmaps.contains s x)
unfolding any_contains
any_contains-snoc bitmaps x [] s = ground arith
any_contains-snoc bitmaps x (r ∷ l) s = ground (arith, any_contains-snoc bitmaps x l s)

module _ {T S : Type 0} (terms : Terms T) (bitmaps : Bitmaps S) (IsValue : T → Type 0)
    (below : T → T → Bool) (laws : IsTerms terms IsValue below) where
  pub IsEntry-of_readable :
      (b : MemBucket) (m : Pairs)
      → UniqueKeys m
      → IsReadable terms bitmaps IsValue b
      → ((k v : Bytes) → lookup k m ≡ some v → Diskstore.get b k ≡ some v)
      → All (IsEntry terms bitmaps IsValue b) m
  unfolding read_set
  IsEntry-of_readable b m u readable here =
      All-of_lookup (IsEntry terms bitmaps IsValue b) m u λ k v found.
        let in_bucket = here k v found in
        let ((s, read), known) = readable k in
        elim known [
          | inl absent ↦ absurd (ground (arith, in_bucket))
          | inr (t, value, key) ↦ (t, s, value, key, in_bucket, rw in_bucket at read)
        ]

  unfoldable pub Scans : MemBucket → List S → Pairs → Result (Scan terms bitmaps) → Type 0
  Scans b sets m r =
      (sets' : List S) × (inv' : IndexInverted T S) × (r ≡ ok (sets', inv'))
      × Mirrors terms bitmaps IsValue b inv'
      × ((x : ℕ)
          → any_contains bitmaps x sets'
            ≡ (any_contains bitmaps x sets || any_stored terms bitmaps IsValue m x))

  -- one round: the set of the term of an entry is that of the entry
  add_set_lem :
      (b : MemBucket) (inv : IndexInverted T S) (sets : List S) (k v : Bytes)
      → IsEntry terms bitmaps IsValue b (k, v)
      → Mirrors terms bitmaps IsValue b inv
      → Scans b sets ((k, v) ∷ []) (add_set terms bitmaps k v (sets, inv))
  unfolding Scans add_set get_set_cache_item is_posted is_stored any_stored read_set contains_read
  add_set_lem b inv sets k v (t, s, value, key, here, read) mirrors =
      let back : terms.from_key k ≡ some t =
        ap terms.from_key (sym key) ∙ laws.from_key-to_key t value in
      let stored : (x : ℕ) → is_stored terms bitmaps b t x ≡ bitmaps.contains s x =
        λ x. rw (is_stored, key, here, read) refl in
      elim (Option-cases (find terms t inv.set_cache)) [
        | inr (item, cached) ↦
            let same : (x : ℕ) → bitmaps.contains item.set x ≡ bitmaps.contains s x =
              λ x. sym (rw (is_posted, cached) refl) ∙ mirrors t x value ∙ stored x in
            (
              sets ++ item.set ∷ [],
              inv,
              rw (back, get_set_cache_item, cached) refl,
              mirrors,
              λ x. ground (arith, any_contains-snoc bitmaps x sets item.set, same x, read),
            )
        | inl absent ↦
            let item : SetCacheItem S = record { set = s; is_dirty = false } in
            (
              sets ++ s ∷ [],
              record inv { set_cache = store terms t item inv.set_cache },
              rw (back, get_set_cache_item, absent, read) refl,
              λ u x w. elim (Bool-cases (terms.same t u)) [
                | inl same ↦
                    let equal : t ≡ u = (laws.same_iff t u value w).0 same in
                    rw
                      (
                        is_posted,
                        find-store terms IsValue below laws t u item inv.set_cache,
                        same,
                        ← equal,
                      )
                      (sym (stored x))
                | inr differ ↦
                    let before : is_posted terms bitmaps inv u x ≡ is_stored terms bitmaps b u x =
                      mirrors u x w in
                    rw
                      (
                        is_posted,
                        find-store terms IsValue below laws t u item inv.set_cache,
                        differ,
                      )
                      before
              ],
              λ x. ground (arith, any_contains-snoc bitmaps x sets s, read),
            )
      ]

  -- A scan of entries of the bucket collects sets that have together what the entries have.
  pub visit-add_set :
      (b : MemBucket) (inv : IndexInverted T S) (sets : List S) (m : Pairs)
      → All (IsEntry terms bitmaps IsValue b) m
      → Mirrors terms bitmaps IsValue b inv
      → Scans b sets m (visit (add_set terms bitmaps) m (sets, inv))
  unfolding Scans visit any_stored
  visit-add_set b inv sets [] a mirrors = (sets, inv, refl, mirrors, λ x. ground arith)
  visit-add_set b inv sets ((k, v) ∷ m) a mirrors =
      let (sets1, inv1, run1, mirrors1, has1) = add_set_lem b inv sets k v a.0 mirrors in
      let (sets2, inv2, run2, mirrors2, has2) = visit-add_set b inv1 sets1 m a.1 mirrors1 in
      (sets2, inv2, rw run1 run2, mirrors2, λ x. ground (arith, has1 x, has2 x))
