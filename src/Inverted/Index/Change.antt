-- ===== src/Inverted/Index/Change.antt =====
-- One checked operation changes whether one point has one term, and nothing else.
use semadb.Base.{
  All, Bool, Bool-cases, List, Option-cases, [], ap, ap₂, arith, false, if◌then◌else◌, inl, inr,
  none, refl, some, subst, sym, true, ℕ, ◌&&◌, ◌==◌, ◌||◌, ◌≡◌, ◌∙◌, ◌∷◌, ◌⊎◌, ==_iff,
}
use semadb.Base.Result.{Result, ok}
use semadb.Diskstore.{MemBucket}
use semadb.Inverted.Index.{
  Bitmaps, IndexInverted, SetCacheItem, change_set, find, get_set_cache_item, store,
}
use semadb.Inverted.Index.Posted.{
  All-store, IsBitmaps, IsSettled, IsSound, contains_read, find-store, is_posted, is_stored,
  store-UniqueTerms,
}
use semadb.Inverted.Terms.{IsTerms, Terms}

module _ {T S : Type 0} (terms : Terms T) (bitmaps : Bitmaps S) (IsValue : T → Type 0)
    (below : T → T → Bool) (laws : IsTerms terms IsValue below) (sets : IsBitmaps bitmaps) where
  IsFound : IndexInverted T S → T → Result (SetCacheItem S × IndexInverted T S) → Type 0
  IsFound inv t r =
      (item : SetCacheItem S) × (inv' : IndexInverted T S) × (r ≡ ok (item, inv'))
      × IsSound terms bitmaps IsValue inv'
      × (IsSettled terms bitmaps IsValue inv'.bucket (t, item))
      × ((x : ℕ) → bitmaps.contains item.set x ≡ is_posted terms bitmaps inv t x)
      × ((u : T) (x : ℕ)
          → IsValue u
          → is_posted terms bitmaps inv' u x ≡ is_posted terms bitmaps inv u x)

  IsSettled-at :
      (b : MemBucket) (t : T) (item : SetCacheItem S) (m : List (T × SetCacheItem S))
      → IsValue t
      → find terms t m ≡ some item
      → All (IsSettled terms bitmaps IsValue b) m
      → IsSettled terms bitmaps IsValue b (t, item)
  unfolding find
  IsSettled-at b t item [] v h a = absurd (ground arith)
  IsSettled-at b t item ((u, w) ∷ m) v h a = elim (Bool-cases (terms.same u t)) [
    | inl same ↦
        let now : w ≡ item = cc (rw same at h) in
        let equal : u ≡ t = (laws.same_iff u t a.0.0 v).0 same in
        subst (IsSettled terms bitmaps IsValue b) (ap₂ (λ i j. (i, j)) equal now) a.0
    | inr differ ↦ IsSettled-at b t item m v (rw differ at h) a.1
  ]

  get_set_cache_item_lem :
      (inv : IndexInverted T S) (t : T)
      → IsValue t
      → IsSound terms bitmaps IsValue inv
      → IsFound inv t (get_set_cache_item terms bitmaps inv t none)
  unfolding IsFound get_set_cache_item is_posted is_stored contains_read
  get_set_cache_item_lem inv t v sound = elim (Option-cases (find terms t inv.set_cache)) [
    | inr (item, found) ↦ (
      item,
      inv,
      rw (get_set_cache_item, found) refl,
      sound,
      IsSettled-at inv.bucket t item inv.set_cache v found sound.settled,
      λ x. rw (is_posted, found) refl,
      λ u x k. refl,
    )
    | inl absent ↦
        let (s, read) = (sound.readable (terms.to_key t)).0 in
        let item : SetCacheItem S = record { set = s; is_dirty = false } in
        let stored : (x : ℕ) → bitmaps.contains s x ≡ is_stored terms bitmaps inv.bucket t x =
          λ x. rw (is_stored, read) refl in
        (
          item,
          record inv { set_cache = store terms t item inv.set_cache },
          rw (get_set_cache_item, absent, read) refl,
          record {
            unique = store-UniqueTerms terms IsValue below laws t item inv.set_cache sound.unique;
            settled =
                All-store terms IsValue below laws (IsSettled terms bitmaps IsValue inv.bucket) t
                  item inv.set_cache (v, inr stored) sound.settled;
            readable = sound.readable;
            writable = sound.writable;
          },
          (v, inr stored),
          λ x. rw (is_posted, absent) (stored x),
          λ u x k. elim (Bool-cases (terms.same t u)) [
            | inl same ↦
                let equal : t ≡ u = (laws.same_iff t u v k).0 same in
                rw
                  (
                    is_posted,
                    find-store terms IsValue below laws t u item inv.set_cache,
                    same,
                    ← equal,
                    absent,
                  )
                  (stored x ∙ ap (λ i. is_stored terms bitmaps inv.bucket i x) equal)
            | inr differ ↦
                rw (is_posted, find-store terms IsValue below laws t u item inv.set_cache, differ)
                  refl
          ],
        )
  ]

  unfoldable pub IsChanged : IndexInverted T S → T → ℕ → Bool → Result (IndexInverted T S) → Type 0
  IsChanged inv t id value r =
      (inv' : IndexInverted T S) × (r ≡ ok inv')
      × IsSound terms bitmaps IsValue inv'
      × ((u : T) (x : ℕ)
          → IsValue u
          → is_posted terms bitmaps inv' u x
            ≡ (if terms.same t u && id == x then value else is_posted terms bitmaps inv u x))

  -- a checked operation that changes nothing leaves what is in the bucket
  settled_changed :
      (operation : S → ℕ → Bool × S) (value : Bool) (b : MemBucket) (t : T) (item : SetCacheItem S)
      (id : ℕ)
      → ((s : S) (x : ℕ)
          → bitmaps.contains (operation s id).1 x
            ≡ (if id == x then value else bitmaps.contains s x))
      → ((s : S) → (operation s id).0 ≡ false → bitmaps.contains s id ≡ value)
      → (item.is_dirty ≡ true)
        ⊎ ((x : ℕ) → bitmaps.contains item.set x ≡ is_stored terms bitmaps b t x)
      → (((operation item.set id).0 || item.is_dirty) ≡ true)
        ⊎ ((x : ℕ) → bitmaps.contains (operation item.set id).1 x ≡ is_stored terms bitmaps b t x)
  settled_changed operation value b t item id set_law flag_law (inl dirty) = inl (ground arith)
  settled_changed operation value b t item id set_law flag_law (inr stored) =
      elim (Bool-cases (operation item.set id).0) [
        | inl changed ↦ inl (ground arith)
        | inr kept ↦ inr λ x. elim (Bool-cases (id == x)) [
          | inl same ↦
              let equal : id ≡ x = (==_iff id x).0 same in
              set_law item.set x
              ∙ rw same
                  (sym (flag_law item.set kept) ∙ ap (bitmaps.contains item.set) equal ∙ stored x)
          | inr other ↦ set_law item.set x ∙ rw other (stored x)
        ]
      ]

  pub change_set_lem :
      (operation : S → ℕ → Bool × S) (value : Bool) (inv : IndexInverted T S) (t : T) (id : ℕ)
      → ((s : S) (x : ℕ)
          → bitmaps.contains (operation s id).1 x
            ≡ (if id == x then value else bitmaps.contains s x))
      → ((s : S) → (operation s id).0 ≡ false → bitmaps.contains s id ≡ value)
      → IsValue t
      → IsSound terms bitmaps IsValue inv
      → IsChanged inv t id value (change_set terms bitmaps operation inv t id)
  unfolding IsChanged IsFound change_set is_posted
  change_set_lem operation value inv t id set_law flag_law v sound =
      let (item, inv1, run, sound1, settled, has, same_posts) =
        get_set_cache_item_lem inv t v sound in
      let changed : SetCacheItem S = record {
        set = (operation item.set id).1;
        is_dirty = (operation item.set id).0 || item.is_dirty;
      } in
      let settled' : IsSettled terms bitmaps IsValue inv1.bucket (t, changed) =
        (v, settled_changed operation value inv1.bucket t item id set_law flag_law settled.1) in
      (
        record inv1 { set_cache = store terms t changed inv1.set_cache },
        rw run refl,
        record {
          unique =
              store-UniqueTerms terms IsValue below laws t changed inv1.set_cache sound1.unique;
          settled =
              All-store terms IsValue below laws (IsSettled terms bitmaps IsValue inv1.bucket) t
                changed inv1.set_cache settled' sound1.settled;
          readable = sound1.readable;
          writable = sound1.writable;
        },
        λ u x k. elim (Bool-cases (terms.same t u)) [
          | inl same ↦
              let equal : t ≡ u = (laws.same_iff t u v k).0 same in
              let before : is_posted terms bitmaps inv t x ≡ is_posted terms bitmaps inv u x =
                ap (λ i. is_posted terms bitmaps inv i x) equal in
              rw (is_posted, find-store terms IsValue below laws t u changed inv1.set_cache, same)
                (set_law item.set x ∙ ap (λ b. if id == x then value else b) (has x ∙ before))
          | inr differ ↦
              rw
                (
                  ← same_posts u x k,
                  is_posted,
                  find-store terms IsValue below laws t u changed inv1.set_cache,
                  differ,
                )
                refl
        ],
      )
