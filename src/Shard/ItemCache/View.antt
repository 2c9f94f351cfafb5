-- ===== src/Shard/ItemCache/View.antt =====
-- The cache as a map from ids to items: what its reads return and its writes change.
use semadb.Base.{
  Bool, List, Option-cases, [], Bool-cases, arith, false, if◌then◌else◌, inl, inr, none, refl, some,
  true, ◌||◌, ◌≡◌, ◌⊎◌, ◌∷◌, ◌∙◌, sym, ap,
}
use semadb.Base.Assoc.{Eq, insert, lookup, lookup-insert}
use semadb.Base.Result.{Result, err, not_found, ok, panic, ◌>>=◌}
use semadb.Diskstore.{MemBucket}
use semadb.Shard.ItemCache.{
  ItemCache, ItemCacheElem, Storable, delete, delete_one, delete_read, get, put, read,
}

module _ {K V : Type 0} ⦃key : Eq K⦄ (storable : Storable K V) where
  -- The item that an id stands for: the cache's if it has one, not found if that is deleted, and the
  -- bucket's otherwise.
  unfoldable pub view : ItemCache K V → K → Result V
  view c id = elim (lookup id c.items) [
    | some item ↦ if item.is_deleted then err not_found else ok item.value
    | none ↦ storable.read_from id c.bucket
  ]

  -- reading an item into the cache changes nothing
  pub view-read :
      (c : ItemCache K V) (id : K) (v : V) (j : K)
      → lookup id c.items ≡ none
      → storable.read_from id c.bucket ≡ ok v
      → view
          (record c {
            items = insert id (record { value = v; is_dirty = false; is_deleted = false }) c.items;
          })
          j
        ≡ view c j
  unfolding view
  view-read c id v j unread found = elim (Bool-cases (key.beq id j)) [
    | inl same ↦
        let e = (key.beq_iff id j).0 same in
        rw (view, lookup-insert, same, ← e, unread, ← e, found) refl
    | inr other ↦ rw (view, lookup-insert, other) refl
  ]

  -- a read of the bucket succeeds, or the call has its outcome
  read_cases :
      (id : K) (c : ItemCache K V)
      → ((v : V) × (storable.read_from id c.bucket ≡ ok v))
        ⊎ (lookup id c.items ≡ none → get storable c id ≡ (view c id >>= λ v. ok (v, c)))
  unfolding get view read
  read_cases id c = go (storable.read_from id c.bucket) refl
    where
      go :
          (r : Result V)
          → storable.read_from id c.bucket ≡ r
          → ((v : V) × (storable.read_from id c.bucket ≡ ok v))
            ⊎ (lookup id c.items ≡ none → get storable c id ≡ (view c id >>= λ v. ok (v, c)))
      go (ok v) e = inl (v, e)
      go (err failure) e = inr λ unread. rw (get, view, unread, e) refl
      go panic e = inr λ unread. rw (get, view, unread, e) refl

  -- Reading an item gives what the id stands for, or its error, and changes what no id stands for.
  pub get_lem :
      (c : ItemCache K V) (id : K)
      → (c' : ItemCache K V) × (get storable c id ≡ (view c id >>= λ v. ok (v, c')))
        × ((j : K) → view c' j ≡ view c j)
        × (c'.bucket ≡ c.bucket)
  unfolding get view read
  get_lem c id = elim (Option-cases (lookup id c.items)) [
    | inr (item, cached) ↦ (c, ground arith, λ j. refl, refl)
    | inl unread ↦ elim (read_cases id c) [
      | inl (v, found) ↦ (
        record c {
          items = insert id (record { value = v; is_dirty = false; is_deleted = false }) c.items;
        },
        rw (get, view, unread, found) refl,
        λ j. view-read c id v j unread found,
        refl,
      )
      | inr failed ↦ (c, failed unread, λ j. refl, refl)
    ]
  ]

  -- the bucket fails on no id: it has an item, or it has none
  abbrev pub IsReadable : MemBucket → Type 0
  IsReadable b =
      (id : K)
      → (storable.read_from id b ≡ err not_found) ⊎ ((v : V) × (storable.read_from id b ≡ ok v))

  -- After an item is put its id stands for it, and every other id for what it stood for before.
  pub put_lem :
      (c : ItemCache K V) (id : K) (v : V) (j : K)
      → view (put storable c id v) j ≡ (if key.beq id j then ok v else view c j)
  unfolding put view
  put_lem c id v j = elim (Bool-cases (key.beq id j)) [
    | inl same ↦ rw (view, lookup-insert, same) refl
    | inr other ↦ rw (view, lookup-insert, other) refl
  ]

  -- an item that is marked as deleted in the cache, whatever stood there before
  view-deleted :
      (c : ItemCache K V) (id : K) (item : ItemCacheElem V) (j : K)
      → item.is_deleted ≡ true
      → view (record c { items = insert id item c.items }) j
        ≡ (if key.beq id j then err not_found else view c j)
  unfolding view
  view-deleted c id item j gone = elim (Bool-cases (key.beq id j)) [
    | inl same ↦ rw (view, lookup-insert, same, gone) refl
    | inr other ↦ rw (view, lookup-insert, other) refl
  ]

  abbrev Deletes : ItemCache K V → K → Result (ItemCache K V) → Type 0
  Deletes c id r =
      (c' : ItemCache K V) × (r ≡ ok c')
      × ((j : K) → view c' j ≡ (if key.beq id j then err not_found else view c j))
      × (c'.bucket ≡ c.bucket)

  -- deleting what is not there changes nothing
  view-absent :
      (c : ItemCache K V) (id j : K)
      → view c id ≡ err not_found
      → view c j ≡ (if key.beq id j then err not_found else view c j)
  view-absent c id j absent = elim (Bool-cases (key.beq id j)) [
    | inl same ↦ rw same (ap (view c) (sym ((key.beq_iff id j).0 same)) ∙ absent)
    | inr other ↦ rw other refl
  ]

  delete_one_lem :
      (c : ItemCache K V) (id : K) → IsReadable c.bucket → Deletes c id (delete_one storable c id)
  unfolding delete_one delete_read read view
  delete_one_lem c id readable = elim (Option-cases (lookup id c.items)) [
    | inr (item, cached) ↦ (
      record c { items = insert id (record item { is_deleted = true }) c.items },
      rw (delete_one, cached) refl,
      λ j. view-deleted c id (record item { is_deleted = true }) j refl,
      refl,
    )
    | inl unread ↦ elim (readable id) [
      | inl absent ↦ (
        c,
        rw (delete_one, unread, absent) refl,
        λ j. view-absent c id j (rw (view, unread) absent),
        refl,
      )
      | inr (v, found) ↦
          let clean : ItemCacheElem V = record {
            value = v;
            is_dirty = false;
            is_deleted = false;
          } in
          let gone : ItemCacheElem V = record { value = v; is_dirty = false; is_deleted = true } in
          let c1 : ItemCache K V = record c { items = insert id clean c.items } in
          (
            record c { items = insert id gone (insert id clean c.items) },
            rw (delete_one, unread, found) refl,
            λ j.
                view-deleted c1 id gone j refl
                ∙ ap (λ r. if key.beq id j then err not_found else r)
                    (view-read c id v j unread found),
            refl,
          )
    ]
  ]

  unfoldable pub among : K → List K → Bool
  among j [] = false
  among j (id ∷ ids) = key.beq id j || among j ids

  -- On a bucket that fails on no id, deleting succeeds; the ids that are deleted then stand for
  -- nothing, and the others for what they did.
  pub delete_lem :
      (c : ItemCache K V) (ids : List K)
      → IsReadable c.bucket
      → (c' : ItemCache K V) × (delete storable c ids ≡ ok c')
        × ((j : K) → view c' j ≡ (if among j ids then err not_found else view c j))
        × (c'.bucket ≡ c.bucket)
  unfolding delete among
  delete_lem c [] readable = (c, refl, λ j. refl, refl)
  delete_lem c (id ∷ ids) readable =
      let (c1, first, view1, bucket1) = delete_one_lem c id readable in
      let (c2, rest, view2, bucket2) =
        delete_lem c1 ids (λ i. rw (ap (storable.read_from i) bucket1) (readable i)) in
      (
        c2,
        rw first rest,
        λ j. elim (Bool-cases (key.beq id j)) [
          | inl same ↦ ground (arith, view1 j, view2 j)
          | inr other ↦ ground (arith, view1 j, view2 j)
        ],
        bucket2 ∙ bucket1,
      )
