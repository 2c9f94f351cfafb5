-- ===== src/Shard/ItemCache/Flush.antt =====
-- A flush writes to the bucket what the cache stands for.
use semadb.Base.{
  All, Bool-cases, List, Option-cases, [], ap, arith, false, if◌then◌else◌, inl, inr, none, refl,
  some, sym, true, ◌≡◌, ◌∙◌, ◌∷◌, ◌⊎◌,
}
use semadb.Base.Assoc.{Eq, UniqueKeys, lookup}
use semadb.Base.Result.{Result, err, not_found, ok}
use semadb.Diskstore.{MemBucket}
use semadb.Shard.ItemCache.{ItemCache, ItemCacheElem, Storable, flush, flush_items}

-- an item with its own flag cleared
abbrev pub cleared : {K V : Type 0} → Storable K V → V → V
cleared storable v = (storable.check_and_clear_dirty v).1

-- What an implementation of `Storable` promises for its ids and for the items that belong to an id: on
-- a writable bucket it writes and deletes without an error, what it wrote it reads back, cleared, and
-- other ids are not touched.
pub record IsStorable {K V : Type 0} ⦃key : Eq K⦄ (storable : Storable K V) (IsId : K → Type 0)
    (IsItem : K → V → Type 0) : Type 0 where
  pub write_lem :
      (id : K) (v : V) (b : MemBucket)
      → IsId id
      → IsItem id v
      → b.is_read_only ≡ false
      → (b' : MemBucket) × (storable.write_to id v b ≡ ok b')
        × (b'.is_read_only ≡ false)
        × ((j : K)
            → IsId j
            → storable.read_from j b'
              ≡ (if key.beq id j then ok (cleared storable v) else storable.read_from j b))
  pub delete_from_lem :
      (id : K) (v : V) (b : MemBucket)
      → IsId id
      → b.is_read_only ≡ false
      → (b' : MemBucket) × (storable.delete_from id v b ≡ ok b')
        × (b'.is_read_only ≡ false)
        × ((j : K)
            → IsId j
            → storable.read_from j b'
              ≡ (if key.beq id j then err not_found else storable.read_from j b))
  pub cleared_IsItem : (id : K) (v : V) → IsItem id v → IsItem id (cleared storable v)
  pub cleared_twice : (v : V) → cleared storable (cleared storable v) ≡ cleared storable v

module _ {K V : Type 0} ⦃key : Eq K⦄ (storable : Storable K V) (IsId : K → Type 0)
    (IsItem : K → V → Type 0) where
  -- an item of the cache belongs to its id; if it will not be written, the bucket has it already
  abbrev pub IsSettled : MemBucket → K × ItemCacheElem V → Type 0
  IsSettled b (id, item) =
      IsId id
      × IsItem id item.value
      × ((item.is_deleted ≡ true)
          ⊎ (item.is_dirty ≡ true)
          ⊎ ((storable.check_and_clear_dirty item.value).0 ≡ true)
          ⊎ (storable.read_from id b ≡ ok (cleared storable item.value)))

module _ {K V : Type 0} ⦃key : Eq K⦄ (storable : Storable K V) where
  -- what a flush of these items leaves in the bucket
  pub flushed : List (K × ItemCacheElem V) → MemBucket → K → Result V
  flushed m b j = elim (lookup j m) [
    | some item ↦ if item.is_deleted then err not_found else ok (cleared storable item.value)
    | none ↦ storable.read_from j b
  ]

module _ {K V : Type 0} where
  -- not marked as deleted nor as dirty; the own flag of an item that was marked as dirty is not read,
  -- and so not cleared
  abbrev pub IsFlushed : K × ItemCacheElem V → Type 0
  IsFlushed (id, item) = (item.is_deleted ≡ false) × (item.is_dirty ≡ false)

module _ {K V : Type 0} ⦃key : Eq K⦄ (storable : Storable K V) (IsId : K → Type 0)
    (IsItem : K → V → Type 0) (laws : IsStorable storable IsId IsItem) where
  IsSettled-other :
      (b b' : MemBucket) (id : K) (m : List (K × ItemCacheElem V))
      → lookup id m ≡ none
      → ((j : K) → IsId j → key.beq id j ≡ false → storable.read_from j b' ≡ storable.read_from j b)
      → All (IsSettled storable IsId IsItem b) m
      → All (IsSettled storable IsId IsItem b') m
  unfolding lookup
  IsSettled-other b b' id [] absent same s = tt
  IsSettled-other b b' id ((j, item) ∷ m) absent same s = (
    (
      s.0.0,
      s.0.1,
      elim s.0.2 [
        | inl a ↦ inl a
        | inr (inl d) ↦ inr (inl d)
        | inr (inr (inl o)) ↦ inr (inr (inl o))
        | inr (inr (inr r)) ↦
            inr
              (inr (inr ((same j s.0.0 (ground (arith, key.beq_iff id j, key.beq_iff j id))) ∙ r)))
      ],
    ),
    IsSettled-other b b' id m (ground arith) same s.1,
  )

  abbrev outcome : ItemCacheElem V → Result V
  outcome item = if item.is_deleted then err not_found else ok (cleared storable item.value)

  -- the flush of one item, and then of the others
  flushed-cons :
      (b b' : MemBucket) (id : K) (item : ItemCacheElem V) (m : List (K × ItemCacheElem V))
      (r : Result V)
      → lookup id m ≡ none
      → outcome item ≡ r
      → ((j : K)
          → IsId j
          → storable.read_from j b' ≡ (if key.beq id j then r else storable.read_from j b))
      → (j : K) → IsId j
      → flushed storable m b' j ≡ flushed storable ((id, item) ∷ m) b j
  unfolding flushed lookup
  flushed-cons b b' id item m r absent own after j known = elim (Bool-cases (key.beq id j)) [
    | inl same ↦
        let none_left : lookup j m ≡ none =
          ap (λ i. lookup i m) (sym ((key.beq_iff id j).0 same)) ∙ absent in
        let read_now : storable.read_from j b' ≡ r = rw same at (after j known) in
        rw (flushed, none_left, same) (read_now ∙ sym own)
    | inr other ↦
        let read_now : storable.read_from j b' ≡ storable.read_from j b =
          rw other at (after j known) in
        elim (Option-cases (lookup j m)) [
          | inl none_left ↦ rw (flushed, other, none_left) read_now
          | inr (left, found) ↦ rw (flushed, other, found) refl
        ]
  ]

  abbrev Flushes :
      List (K × ItemCacheElem V)
      → MemBucket
      → Result (List (K × ItemCacheElem V) × MemBucket)
      → Type 0
  Flushes m b r =
      (m' : List (K × ItemCacheElem V)) × (b' : MemBucket) × (r ≡ ok (m', b'))
      × All IsFlushed m'
      × ((j : K) → IsId j → storable.read_from j b' ≡ flushed storable m b j)

  unchanged_elsewhere :
      (b b' : MemBucket) (id : K) (r : Result V)
      → ((j : K)
          → IsId j
          → storable.read_from j b' ≡ (if key.beq id j then r else storable.read_from j b))
      → (j : K) → IsId j
      → key.beq id j ≡ false
      → storable.read_from j b' ≡ storable.read_from j b
  unchanged_elsewhere b b' id r after j known other = rw other at (after j known)

  unchanged_at :
      (b : MemBucket) (id : K) (r : Result V) (j : K)
      → storable.read_from id b ≡ r
      → storable.read_from j b ≡ (if key.beq id j then r else storable.read_from j b)
  unchanged_at b id r j now = elim (Bool-cases (key.beq id j)) [
    | inl same ↦ rw same (ap (λ i. storable.read_from i b) (sym ((key.beq_iff id j).0 same)) ∙ now)
    | inr other ↦ rw other refl
  ]

  flush_items_lem :
      (m : List (K × ItemCacheElem V)) (b : MemBucket)
      → UniqueKeys m
      → All (IsSettled storable IsId IsItem b) m
      → b.is_read_only ≡ false
      → Flushes m b (flush_items storable m b)
  unfolding flush_items flushed lookup
  flush_items_lem [] b u s w = ([], b, refl, tt, λ j known. refl)
  flush_items_lem ((id, item) ∷ m) b u s w = elim (Bool-cases item.is_deleted) [
    | inl gone ↦
        let (b1, deleted, w1, after) = laws.delete_from_lem id item.value b s.0.0 w in
        let s1 = IsSettled-other b b1 id m u.0 (unchanged_elsewhere b b1 id _ after) s.1 in
        let (m', b', rest, done, reads) = flush_items_lem m b1 u.1 s1 w1 in
        (
          m',
          b',
          rw (flush_items, gone, deleted) rest,
          done,
          λ j known. reads j known ∙ flushed-cons b b1 id item m _ u.0 (rw gone refl) after j known,
        )
    | inr kept ↦ elim (Bool-cases item.is_dirty) [
      | inl dirty ↦
          let (b1, written, w1, after) = laws.write_lem id item.value b s.0.0 s.0.1 w in
          let s1 = IsSettled-other b b1 id m u.0 (unchanged_elsewhere b b1 id _ after) s.1 in
          let (m', b', rest, done, reads) = flush_items_lem m b1 u.1 s1 w1 in
          (
            (id, record item { is_dirty = false }) ∷ m',
            b',
            rw (flush_items, kept, dirty, written, rest) refl,
            ((kept, refl), done),
            λ j known.
                reads j known ∙ flushed-cons b b1 id item m _ u.0 (rw kept refl) after j known,
          )
      | inr clean ↦ elim (Bool-cases (storable.check_and_clear_dirty item.value).0) [
        | inl own ↦
            let v = cleared storable item.value in
            let (b1, written, w1, after) =
              laws.write_lem id v b s.0.0 (laws.cleared_IsItem id item.value s.0.1) w in
            let s1 = IsSettled-other b b1 id m u.0 (unchanged_elsewhere b b1 id _ after) s.1 in
            let (m', b', rest, done, reads) = flush_items_lem m b1 u.1 s1 w1 in
            (
              (id, record { value = v; is_dirty = false; is_deleted = false }) ∷ m',
              b',
              rw (flush_items, kept, clean, own, written, rest) refl,
              ((refl, refl), done),
              λ j known.
                  reads j known
                  ∙ flushed-cons b b1 id item m _ u.0
                      (rw (kept, laws.cleared_twice item.value) refl) after j known,
            )
        | inr settled ↦
            let now : storable.read_from id b ≡ ok (cleared storable item.value) = ground arith in
            let (m', b', rest, done, reads) = flush_items_lem m b u.1 s.1 w in
            (
              (id, item) ∷ m',
              b',
              rw (flush_items, kept, clean, settled, rest) refl,
              ((kept, clean), done),
              λ j known.
                  reads j known
                  ∙ flushed-cons b b id item m (ok (cleared storable item.value)) u.0 (rw kept refl)
                      (λ i known'. unchanged_at b id _ i now) j known,
            )
      ]
    ]
  ]

  -- On a writable bucket, with an implementation that keeps its promises, and with items that have
  -- each its own id and of which those that need no writing are in the bucket, a flush succeeds. From
  -- the bucket that it leaves, an id of the implementation is read as it stood before: the item of the
  -- cache with its flag cleared, not found if that was deleted, and what the bucket had if the cache
  -- had none. No item of the cache is left with the mark of a deleted or of a dirty one; of the flags
  -- that items keep themselves nothing is said.
  pub flush_lem :
      (c : ItemCache K V)
      → UniqueKeys c.items
      → All (IsSettled storable IsId IsItem c.bucket) c.items
      → c.bucket.is_read_only ≡ false
      → (c' : ItemCache K V) × (flush storable c ≡ ok c')
        × All IsFlushed c'.items
        × ((j : K) → IsId j → storable.read_from j c'.bucket ≡ flushed storable c.items c.bucket j)
  unfolding flush
  flush_lem c u s w =
      let (items, b, run, done, reads) = flush_items_lem c.items c.bucket u s w in
      (record c { items = items; bucket = b }, rw run refl, done, reads)
