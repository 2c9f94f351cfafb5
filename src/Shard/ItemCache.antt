-- ===== src/Shard/ItemCache.antt =====
-- shard/cache/itemcache.go: a cache of items over a bucket, which is written when the cache is
-- flushed. An item knows how it is stored, by the interface `Storable`. The items of the cache are a Go
-- map. A call that ends with an error of the bucket leaves no cache: the callers drop it with the
-- transaction. An item that callers share by a pointer is changed by `change_in_place`, or the caller
-- puts the changed item.
pub mod View
pub mod Many
pub mod Flush
pub mod InPlace
use semadb.Base.{
  Bool, List, Option, [], false, if◌then◌else◌, length, none, not, some, suc, true, ℕ, ◌+◌, ◌*◌,
  ◌||◌, ◌++◌, ◌∷◌,
}
use semadb.Base.Assoc.{Eq, insert, lookup}
use semadb.Base.Result.{Error, Result, err, not_found, ok, panic, ◌>>=◌}
use semadb.Conversion.{Bytes}
use semadb.Diskstore
use semadb.Diskstore.{MemBucket, Pairs}

-- `Storable[K, T]`; `check_and_clear_dirty` gives the flag and the item with the flag cleared
pub record Storable (K V : Type 0) : Type 0 where
  pub id_from_key : Bytes → Option K
  pub check_and_clear_dirty : V → Bool × V
  pub read_from : K → MemBucket → Result V
  pub write_to : K → V → MemBucket → Result MemBucket
  pub delete_from : K → V → MemBucket → Result MemBucket
  pub size_in_memory : V → ℕ

pub record ItemCacheElem (V : Type 0) : Type 0 where
  pub value : V
  pub is_dirty : Bool
  pub is_deleted : Bool

pub record ItemCache (K V : Type 0) : Type 0 where
  pub items : List (K × ItemCacheElem V)
  pub is_all_in_cache : Bool
  pub bucket : MemBucket

module _ {K V : Type 0} ⦃key : Eq K⦄ (storable : Storable K V) where
  pub new_item_cache : MemBucket → ItemCache K V
  new_item_cache bucket = record { items = []; is_all_in_cache = false; bucket = bucket }

  pub update_bucket : ItemCache K V → MemBucket → ItemCache K V
  update_bucket c bucket = record c { bucket = bucket }

  -- the number of items times the size of one of them, the first of an iteration
  pub size_of_items : ItemCache K V → ℕ
  size_of_items c = elim c.items [
    | [] ↦ 0
    | (id, item) ∷ more ↦ length c.items * storable.size_in_memory item.value
  ]

  pub read : ItemCache K V → K → Result (V × ItemCache K V)
  read c id = do
    value ← storable.read_from id c.bucket
    let item : ItemCacheElem V = record { value = value; is_dirty = false; is_deleted = false }
    ok (value, record c { items = insert id item c.items })

  pub get : ItemCache K V → K → Result (V × ItemCache K V)
  get c id = elim (lookup id c.items) [
    | some item ↦ if item.is_deleted then err not_found else ok (item.value, c)
    | none ↦ read c id
  ]

  -- an item that is not found is skipped
  pub add_found :
      ItemCache K V → List V → Result (V × ItemCache K V) → Result (List V × ItemCache K V)
  add_found c values (ok (value, c')) = ok (values ++ value ∷ [], c')
  add_found c values (err not_found) = ok (values, c)
  add_found c values (err e) = err e
  add_found c values panic = panic

  pub get_many_loop : ItemCache K V → List V → List K → Result (List V × ItemCache K V)
  get_many_loop c values [] = ok (values, c)
  get_many_loop c values (id ∷ ids) = do
    (values', c') ← elim (lookup id c.items) [
      | some item ↦ if item.is_deleted then ok (values, c) else ok (values ++ item.value ∷ [], c)
      | none ↦ add_found c values (read c id)
    ]
    get_many_loop c' values' ids

  pub get_many : ItemCache K V → List K → Result (List V × ItemCache K V)
  get_many c ids = get_many_loop c [] ids

  pub put : ItemCache K V → K → V → ItemCache K V
  put c id item = record c {
    items = insert id (record { value = item; is_dirty = true; is_deleted = false }) c.items;
  }

  -- an item that is neither in the cache nor in the bucket is passed over
  pub delete_read : ItemCache K V → K → Result (V × ItemCache K V) → Result (ItemCache K V)
  delete_read c id (ok (value, c')) = ok (record c' {
    items = insert id (record { value = value; is_dirty = false; is_deleted = true }) c'.items;
  })
  delete_read c id (err not_found) = ok c
  delete_read c id (err e) = err e
  delete_read c id panic = panic

  pub delete_one : ItemCache K V → K → Result (ItemCache K V)
  delete_one c id = elim (lookup id c.items) [
    | some item ↦ ok (record c { items = insert id (record item { is_deleted = true }) c.items })
    | none ↦ delete_read c id (read c id)
  ]

  pub delete : ItemCache K V → List K → Result (ItemCache K V)
  delete c [] = ok c
  delete c (id ∷ ids) = do c' ← delete_one c id; delete c' ids

  -- the items of the bucket that are not in the cache, one for each key that is an item's
  pub count_bucket : ItemCache K V → Pairs → ℕ
  count_bucket c [] = 0
  count_bucket c ((k, v) ∷ m) =
      let rest = count_bucket c m in
      elim (storable.id_from_key k) [
        | none ↦ rest
        | some id ↦ elim (lookup id c.items) [ none ↦ suc rest | some item ↦ rest ]
      ]

  pub count_items : List (K × ItemCacheElem V) → ℕ
  count_items [] = 0
  count_items ((id, item) ∷ m) =
      let rest = count_items m in if item.is_deleted then rest else suc rest

  pub count : ItemCache K V → ℕ
  count c = count_items c.items + count_bucket c c.bucket.entries

  -- the first half of `ForEach`: the callback that it gives to the bucket's `ForEach`
  pub load_entry : Bytes → Bytes → ItemCache K V → Result (ItemCache K V)
  load_entry k v c = elim (storable.id_from_key k) [
    | none ↦ ok c
    | some id ↦ elim (lookup id c.items) [
      | some item ↦ ok c
      | none ↦ do (value, c') ← read c id; ok c'
    ]
  ]

  pub load_all : ItemCache K V → Result (ItemCache K V)
  load_all c = if c.is_all_in_cache then ok c else (do
    c' ← Diskstore.for_each load_entry c.bucket c
    ok (record c' { is_all_in_cache = true }))

  module _ {S : Type 0} (fn : K → V → S → Result S) where
    pub visit_items : List (K × ItemCacheElem V) → S → Result S
    visit_items [] s = ok s
    visit_items ((id, item) ∷ m) s =
        if item.is_deleted then visit_items m s else (do s' ← fn id item.value s; visit_items m s')

    pub for_each : ItemCache K V → S → Result (S × ItemCache K V)
    for_each c s = do c' ← load_all c; s' ← visit_items c'.items s; ok (s', c')

  -- the loop of `Flush` over the items: those that are kept, and the bucket
  pub flush_items :
      List (K × ItemCacheElem V) → MemBucket → Result (List (K × ItemCacheElem V) × MemBucket)
  flush_items [] b = ok ([], b)
  flush_items ((id, item) ∷ m) b =
      let (own_dirty, cleared) = storable.check_and_clear_dirty item.value in
      if item.is_deleted
      then (do b' ← storable.delete_from id item.value b; flush_items m b')
      else if item.is_dirty
      then (do
        b' ← storable.write_to id item.value b
        (m', b'') ← flush_items m b'
        ok ((id, record item { is_dirty = false }) ∷ m', b''))
      else if own_dirty
      then (do
        b' ← storable.write_to id cleared b
        (m', b'') ← flush_items m b'
        ok ((id, record { value = cleared; is_dirty = false; is_deleted = false }) ∷ m', b''))
      else (do (m', b'') ← flush_items m b; ok ((id, item) ∷ m', b''))

  pub flush : ItemCache K V → Result (ItemCache K V)
  flush c = do
    (items, b) ← flush_items c.items c.bucket
    ok (record c { items = items; bucket = b })

  -- A caller that holds an item by its pointer changes it where it stands, in the map of the cache.
  unfoldable pub change_in_place : ItemCache K V → K → V → ItemCache K V
  change_in_place c id v = elim (lookup id c.items) [
    | none ↦ c
    | some item ↦ record c { items = insert id (record item { value = v }) c.items }
  ]
