-- ===== src/Shard/ItemCache/InPlace.antt =====
-- An item that is read and then changed through its pointer.
use semadb.Base.{
  ◌⊎◌, Bool-cases, Option-cases, arith, false, if◌then◌else◌, inl, inr, refl, some, ◌≡◌, ◌∙◌, ap,
}
use semadb.Base.Assoc.{Eq, insert, lookup, lookup-insert}
use semadb.Base.Result.{err, not_found, ok}
use semadb.Shard.ItemCache.{ItemCache, ItemCacheElem, Storable, change_in_place, get, put, read}
use semadb.Shard.ItemCache.View.{IsReadable, view, view-read}

module _ {K V : Type 0} ⦃key : Eq K⦄ (storable : Storable K V) where
  changed_items :
      (c : ItemCache K V) (id : K) (item : ItemCacheElem V) (w : V)
      → lookup id c.items ≡ some item
      → change_in_place storable c id w
        ≡ record c { items = insert id (record item { value = w }) c.items }
  unfolding change_in_place
  changed_items c id item w cached = rw (change_in_place, cached) refl

  -- an item that is in the map and not deleted
  view-change_in_place :
      (c : ItemCache K V) (id : K) (item : ItemCacheElem V) (w : V) (j : K)
      → lookup id c.items ≡ some item
      → item.is_deleted ≡ false
      → view storable (change_in_place storable c id w) j
        ≡ (if key.beq id j then ok w else view storable c j)
  unfolding view
  view-change_in_place c id item w j cached kept =
      ap (λ d. view storable d j) (changed_items c id item w cached)
      ∙ elim (Bool-cases (key.beq id j)) [
        | inl same ↦ rw (view, lookup-insert, same, kept) refl
        | inr other ↦ rw (view, lookup-insert, other) refl
      ]

  -- If an id stands for an item, reading it gives the item, and after it is changed in place the id stands
  -- for the changed one and every other id for what it did.
  pub get-change_in_place :
      (c : ItemCache K V) (id : K) (v : V)
      → view storable c id ≡ ok v
      → (c' : ItemCache K V) × (get storable c id ≡ ok (v, c'))
        × ((w : V) (j : K)
            → view storable (change_in_place storable c' id w) j
              ≡ (if key.beq id j then ok w else view storable c j))
  unfolding get view read
  get-change_in_place c id v stands = elim (Option-cases (lookup id c.items)) [
    | inr (item, cached) ↦
        let shown = rw (view, cached) at stands in
        let kept : item.is_deleted ≡ false = ground arith in
        let value : item.value ≡ v = ground arith in
        (
          c,
          rw (get, cached, kept, value) refl,
          λ w j. view-change_in_place c id item w j cached kept,
        )
    | inl unread ↦
        let found = rw (view, unread) at stands in
        let item : ItemCacheElem V = record { value = v; is_dirty = false; is_deleted = false } in
        let c' : ItemCache K V = record c { items = insert id item c.items } in
        (
          c',
          rw (get, unread, found) refl,
          λ w j.
              view-change_in_place c' id item w j
                (lookup-insert id id item c.items ∙ rw ((key.beq_iff id id).1 refl) refl) refl
              ∙ ap (λ r. if key.beq id j then ok w else r)
                  (view-read storable c id v j unread found),
        )
  ]

  pub put-bucket : (c : ItemCache K V) (id : K) (v : V) → (put storable c id v).bucket ≡ c.bucket
  unfolding put
  put-bucket c id v = refl

  -- over a bucket that fails on no id, an id stands for an item or for none
  pub view-cases :
      (c : ItemCache K V) (id : K)
      → IsReadable storable c.bucket
      → (view storable c id ≡ err not_found) ⊎ ((v : V) × (view storable c id ≡ ok v))
  unfolding view
  view-cases c id readable = elim (Option-cases (lookup id c.items)) [
    | inl unread ↦ rw (view, unread) (readable id)
    | inr (item, cached) ↦ elim (Bool-cases item.is_deleted) [
      | inl gone ↦ inl (rw (view, cached, gone) refl)
      | inr kept ↦ inr (item.value, rw (view, cached, kept) refl)
    ]
  ]
