-- ===== src/Shard/ItemCache/Many.antt =====
-- Reading several items at once.
use mathlib.Core.List.{append-nil, append_assoc}
use semadb.Base.{Bool-cases, List, Option-cases, [], ap, false, inl, inr, refl, ◌++◌, ◌≡◌, ◌∙◌, ◌∷◌}
use semadb.Base.Assoc.{Eq, insert, lookup}
use semadb.Base.Result.{Result, err, ok, panic}
use semadb.Shard.ItemCache.{
  ItemCache, ItemCacheElem, Storable, add_found, get_many, get_many_loop, read,
}
use semadb.Shard.ItemCache.View.{IsReadable, view, view-read}

module _ {K V : Type 0} ⦃key : Eq K⦄ (storable : Storable K V) where
  -- the item in front, if there is one
  pub add_item : Result V → List V → List V
  add_item (ok v) rest = v ∷ rest
  add_item (err e) rest = rest
  add_item panic rest = rest

  -- the items that the ids stand for, without those that are not found
  pub found_items : ItemCache K V → List K → List V
  found_items c [] = []
  found_items c (id ∷ ids) = add_item (view storable c id) (found_items c ids)

  found_items_same :
      (c c' : ItemCache K V) (ids : List K)
      → ((j : K) → view storable c' j ≡ view storable c j)
      → found_items c' ids ≡ found_items c ids
  unfolding found_items
  found_items_same c c' [] same = refl
  found_items_same c c' (id ∷ ids) same = rw (same id, found_items_same c c' ids same) refl

  abbrev Reads : ItemCache K V → List V → List K → Result (List V × ItemCache K V) → Type 0
  Reads c values ids r =
      (c' : ItemCache K V) × (r ≡ ok (values ++ found_items c ids, c'))
      × ((j : K) → view storable c' j ≡ view storable c j)

  many_lem :
      (c : ItemCache K V) (values : List V) (ids : List K)
      → IsReadable storable c.bucket
      → Reads c values ids (get_many_loop storable c values ids)
  unfolding get_many_loop found_items add_found read view add_item
  many_lem c values [] readable = (c, rw append-nil refl, λ j. refl)
  many_lem c values (id ∷ ids) readable = elim (Option-cases (lookup id c.items)) [
    | inr (item, cached) ↦ elim (Bool-cases item.is_deleted) [
      | inl gone ↦
          let (c', rest, same) = many_lem c values ids readable in
          (c', rw (get_many_loop, found_items, view, cached, gone) rest, same)
      | inr kept ↦
          let (c', rest, same) = many_lem c (values ++ item.value ∷ []) ids readable in
          (
            c',
            rw (get_many_loop, found_items, view, cached, kept)
                (rest
                  ∙ ap (λ l. ok (l, c'))
                      (append_assoc values (item.value ∷ []) (found_items c ids))),
            same,
          )
    ]
    | inl unread ↦ elim (readable id) [
      | inl absent ↦
          let (c', rest, same) = many_lem c values ids readable in
          (c', rw (get_many_loop, found_items, view, unread, absent) rest, same)
      | inr (v, found) ↦
          let clean : ItemCacheElem V = record {
            value = v;
            is_dirty = false;
            is_deleted = false;
          } in
          let c1 : ItemCache K V = record c { items = insert id clean c.items } in
          let (c', rest, same) = many_lem c1 (values ++ v ∷ []) ids readable in
          let unchanged : (j : K) → view storable c1 j ≡ view storable c j =
            λ j. view-read storable c id v j unread found in
          (
            c',
            rw (get_many_loop, found_items, view, unread, found)
                (rest
                  ∙ ap (λ l. ok (l, c'))
                      (append_assoc values (v ∷ []) (found_items c1 ids)
                        ∙ ap (λ l. values ++ v ∷ l) (found_items_same c c1 ids unchanged))),
            λ j. same j ∙ unchanged j,
          )
    ]
  ]

  -- On a bucket that fails on no id, reading several items gives those that the ids stand for, in the
  -- order of the ids and without the ids that stand for nothing, and changes what no id stands for.
  pub get_many_lem :
      (c : ItemCache K V) (ids : List K)
      → IsReadable storable c.bucket
      → (c' : ItemCache K V) × (get_many storable c ids ≡ ok (found_items c ids, c'))
        × ((j : K) → view storable c' j ≡ view storable c j)
  unfolding get_many
  get_many_lem c ids readable = many_lem c [] ids readable
