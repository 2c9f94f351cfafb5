-- ===== src/Inverted/Index/Flushed.antt =====
-- A flush writes the sets of the cache, and an index that is opened on the bucket has the points again.
use semadb.Base.{
  All, Bool, Bool-cases, List, Option-cases, [], ap, arith, false, if◌then◌else◌, inl, inr, none,
  refl, some, sym, true, ℕ, ◌≡◌, ◌∙◌, ◌∷◌,
}
use semadb.Base.Result.{Result, ok}
use semadb.Conversion.{Bytes}
use semadb.Diskstore
use semadb.Diskstore.{MemBucket}
use semadb.Diskstore.Laws.{
  after_delete, after_delete-writable, after_put, after_put-writable, delete-after_delete,
  get-after_delete, get-after_put, put-after_put,
}
use semadb.Diskstore.Order.{bytes_eq, bytes_eq_iff, bytes_eq_refl}
use semadb.Inverted.Index.{
  Bitmaps, IndexChange, IndexInverted, SetCacheItem, find, flush, flush_term, flush_terms,
  insert_update_delete, new_index_inverted, read_set,
}
use semadb.Inverted.Index.Changes.{IsChangeData, changed_all, process_changes_lem}
use semadb.Inverted.Index.Posted.{
  IsBitmaps, IsReadable, IsSettled, IsSound, UniqueTerms, contains_read, find_same, is_posted,
  is_stored,
}
use semadb.Inverted.Terms.{IsTerms, Terms}

module _ {T S : Type 0} (terms : Terms T) (bitmaps : Bitmaps S) (IsValue : T → Type 0)
    (below : T → T → Bool) (laws : IsTerms terms IsValue below) (sets : IsBitmaps bitmaps) where
  -- two values have one key only if they are the same
  pub key_test :
      (t u : T)
      → IsValue t
      → IsValue u
      → bytes_eq (terms.to_key t) (terms.to_key u) ≡ terms.same t u
  key_test t u v w = elim (Bool-cases (terms.same t u)) [
    | inl same ↦
        let equal : t ≡ u = (laws.same_iff t u v w).0 same in rw (same, equal, bytes_eq_refl) refl
    | inr differ ↦ elim (Bool-cases (bytes_eq (terms.to_key t) (terms.to_key u))) [
      | inr apart ↦ rw (apart, differ) refl
      | inl together ↦
          let keys : terms.to_key t ≡ terms.to_key u = (bytes_eq_iff _ _).0 together in
          let both : some t ≡ some u =
            sym (laws.from_key-to_key t v) ∙ ap terms.from_key keys ∙ laws.from_key-to_key u w in
          let equal : t ≡ u = cc both in absurd (ground (arith, (laws.same_iff t u v w).1 equal))
    ]
  ]

  -- the outcome of one round: the term's set is in the bucket, and the others are as they were
  Writes : MemBucket → T → SetCacheItem S → Result MemBucket → Type 0
  Writes b t item r =
      (b' : MemBucket) × (r ≡ ok b')
      × (b'.is_read_only ≡ false)
      × IsReadable terms bitmaps IsValue b'
      × ((u : T) (x : ℕ)
          → IsValue u
          → is_stored terms bitmaps b' u x ≡ (
              if terms.same t u
              then bitmaps.contains item.set x
              else is_stored terms bitmaps b u x))

  stored_elsewhere :
      (b b' : MemBucket) (t u : T) (x : ℕ) (has : Bool)
      → Diskstore.get b' (terms.to_key u) ≡ Diskstore.get b (terms.to_key u)
      → terms.same t u ≡ false
      → is_stored terms bitmaps b' u x
        ≡ (if terms.same t u then has else is_stored terms bitmaps b u x)
  unfolding is_stored
  stored_elsewhere b b' t u x has same differ = rw (is_stored, differ, same) refl

  write_empty :
      (b : MemBucket) (t : T) (item : SetCacheItem S)
      → IsValue t
      → IsReadable terms bitmaps IsValue b
      → b.is_read_only ≡ false
      → bitmaps.is_empty item.set ≡ true
      → Writes b t item (Diskstore.delete b (terms.to_key t))
  unfolding Writes is_stored read_set contains_read
  write_empty b t item v readable w empty = (
    after_delete b (terms.to_key t),
    delete-after_delete b (terms.to_key t) w,
    after_delete-writable b (terms.to_key t) ∙ w,
    λ k. elim (Bool-cases (bytes_eq (terms.to_key t) k)) [
      | inl same ↦ (
        (bitmaps.blank, rw (get-after_delete, same) refl),
        inl (rw (get-after_delete, same) refl),
      )
      | inr differ ↦
          let ((s, read), known) = readable k in
          ((s, rw (get-after_delete, differ) read), rw (get-after_delete, differ) known)
    ],
    λ u x k. elim (Bool-cases (terms.same t u)) [
      | inl same ↦
          rw (is_stored, get-after_delete, key_test t u v k, same)
            (sets.blank_lem x ∙ sym (sets.is_empty_lem item.set empty x))
      | inr differ ↦ rw (is_stored, get-after_delete, key_test t u v k, differ) refl
    ],
  )

  write_bytes :
      (b : MemBucket) (t : T) (item : SetCacheItem S) (bytes : Bytes) (read : S)
      → IsValue t
      → IsReadable terms bitmaps IsValue b
      → b.is_read_only ≡ false
      → bitmaps.from_bytes bytes ≡ ok read
      → ((x : ℕ) → bitmaps.contains read x ≡ bitmaps.contains item.set x)
      → Writes b t item (Diskstore.put b (terms.to_key t) bytes)
  unfolding Writes is_stored read_set contains_read
  write_bytes b t item bytes read v readable w back same_set = (
    after_put b (terms.to_key t) bytes,
    put-after_put b (terms.to_key t) bytes w,
    after_put-writable b (terms.to_key t) bytes ∙ w,
    λ k. elim (Bool-cases (bytes_eq (terms.to_key t) k)) [
      | inl same ↦ ((read, rw (get-after_put, same) back), inr (t, v, (bytes_eq_iff _ k).0 same))
      | inr differ ↦
          let ((s, found), known) = readable k in
          ((s, rw (get-after_put, differ) found), rw (get-after_put, differ) known)
    ],
    λ u x k. elim (Bool-cases (terms.same t u)) [
      | inl same ↦ rw (is_stored, get-after_put, key_test t u v k, same, back) (same_set x)
      | inr differ ↦ rw (is_stored, get-after_put, key_test t u v k, differ) refl
    ],
  )

  flush_term_lem :
      (b : MemBucket) (t : T) (item : SetCacheItem S)
      → IsSettled terms bitmaps IsValue b (t, item)
      → IsReadable terms bitmaps IsValue b
      → b.is_read_only ≡ false
      → Writes b t item (flush_term terms bitmaps t item b)
  unfolding flush_term Writes
  flush_term_lem b t item settled readable w = elim (Bool-cases item.is_dirty) [
    | inl dirty ↦ elim (Bool-cases (bitmaps.is_empty item.set)) [
      | inl empty ↦ rw (dirty, empty) (write_empty b t item settled.0 readable w empty)
      | inr full ↦
          let (bytes, written, read, back, same_set) = sets.bytes_lem item.set in
          rw (dirty, full, written)
            (write_bytes b t item bytes read settled.0 readable w back same_set)
    ]
    | inr clean ↦ (
      b,
      rw (flush_term, clean) refl,
      w,
      readable,
      λ u x k. elim (Bool-cases (terms.same t u)) [
        | inl same ↦
            let equal : t ≡ u = (laws.same_iff t u settled.0 k).0 same in
            rw (same, ← equal)
              (elim settled.1 [ inl dirty ↦ absurd (ground arith) | inr stored ↦ sym (stored x) ])
        | inr differ ↦ rw differ refl
      ],
    )
  ]

  -- what the items of a cache say of a term, over the bucket
  posted_of : List (T × SetCacheItem S) → MemBucket → T → ℕ → Bool
  posted_of m b t x = is_posted terms bitmaps (record { set_cache = m; bucket = b }) t x

  IsSettled-after :
      (b b' : MemBucket) (t : T) (item : SetCacheItem S) (m : List (T × SetCacheItem S))
      → find terms t m ≡ none
      → ((u : T) (x : ℕ)
          → IsValue u
          → is_stored terms bitmaps b' u x ≡ (
              if terms.same t u
              then bitmaps.contains item.set x
              else is_stored terms bitmaps b u x))
      → All (IsSettled terms bitmaps IsValue b) m
      → All (IsSettled terms bitmaps IsValue b') m
  unfolding find
  IsSettled-after b b' t item [] absent after s = tt
  IsSettled-after b b' t item ((u, w) ∷ m) absent after s =
      let differ : terms.same t u ≡ false = ground (arith, laws.same_sym t u) in
      (
        (
          s.0.0,
          elim s.0.1 [
            | inl dirty ↦ inl dirty
            | inr stored ↦ inr λ x. stored x ∙ sym (rw differ at (after u x s.0.0))
          ],
        ),
        IsSettled-after b b' t item m (ground arith) after s.1,
      )

  Flushes : List (T × SetCacheItem S) → MemBucket → Result MemBucket → Type 0
  Flushes m b r =
      (b' : MemBucket) × (r ≡ ok b')
      × (b'.is_read_only ≡ false)
      × IsReadable terms bitmaps IsValue b'
      × ((u : T) (x : ℕ) → IsValue u → is_stored terms bitmaps b' u x ≡ posted_of m b u x)

  flush_terms_lem :
      (m : List (T × SetCacheItem S)) (b : MemBucket)
      → UniqueTerms terms m
      → All (IsSettled terms bitmaps IsValue b) m
      → IsReadable terms bitmaps IsValue b
      → b.is_read_only ≡ false
      → Flushes m b (flush_terms terms bitmaps m b)
  unfolding Flushes Writes flush_terms posted_of is_posted find
  flush_terms_lem [] b unique settled readable w = (b, refl, w, readable, λ u x k. refl)
  flush_terms_lem ((t, item) ∷ m) b unique settled readable w =
      let (b1, run1, w1, readable1, after1) = flush_term_lem b t item settled.0 readable w in
      let settled1 = IsSettled-after b b1 t item m unique.0 after1 settled.1 in
      let (b2, run2, w2, readable2, after2) = flush_terms_lem m b1 unique.1 settled1 readable1 w1 in
      (
        b2,
        rw run1 run2,
        w2,
        readable2,
        λ u x k. after2 u x k ∙ elim (Bool-cases (terms.same t u)) [
          | inl same ↦
              let absent : find terms u m ≡ none =
                find_same terms IsValue below laws t u m same ∙ unique.0 in
              rw (posted_of, is_posted, find, same, absent) (rw same at (after1 u x k))
          | inr differ ↦ elim (Option-cases (find terms u m)) [
            | inl absent ↦
                rw (posted_of, is_posted, find, differ, absent) (rw differ at (after1 u x k))
            | inr (found, here) ↦ rw (posted_of, is_posted, find, differ, here) refl
          ]
        ],
      )

  -- An index on a readable and writable bucket, whose cache has the sets that are to be written or that
  -- the bucket has already, takes a list of changes of values without an error. An index that is then
  -- opened on the bucket has of every value exactly the points that the changes say, one after the
  -- other: after a change its point has the current term and has not the previous one (it is not
  -- touched where the two are the same), and every other point is as it was. The index is sound again.
  pub insert_update_delete_lem :
      (inv : IndexInverted T S) (changes : List (IndexChange T))
      → All (IsChangeData IsValue) changes
      → IsSound terms bitmaps IsValue inv
      → (inv' : IndexInverted T S) × (insert_update_delete terms bitmaps inv changes ≡ ok inv')
        × IsSound terms bitmaps IsValue (new_index_inverted terms bitmaps inv'.bucket)
        × ((u : T) (x : ℕ)
            → IsValue u
            → is_posted terms bitmaps (new_index_inverted terms bitmaps inv'.bucket) u x
              ≡ changed_all terms changes (is_posted terms bitmaps inv) u x)
  unfolding insert_update_delete flush new_index_inverted Flushes posted_of is_posted find
  insert_update_delete_lem inv changes data_of sound =
      let (inv1, run1, sound1, posts1) =
        process_changes_lem terms bitmaps IsValue below laws sets inv changes data_of sound in
      let (b, run2, w, readable, after) =
        flush_terms_lem inv1.set_cache inv1.bucket sound1.unique sound1.settled sound1.readable
          sound1.writable in
      (
        record inv1 { bucket = b },
        rw (run1, run2) refl,
        record { unique = tt; settled = tt; readable = readable; writable = w },
        λ u x k. after u x k ∙ posts1 u x k,
      )
