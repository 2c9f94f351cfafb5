-- ===== src/Inverted/Index.antt =====
-- shard/index/inverted/inverted.go: for each term the set of the points that have it, kept in a cache
-- over a bucket. The sets are bitmaps of github.com/RoaringBitmap/roaring, a parameter. The channel of
-- changes is the list of the changes in their order, and the mutex leaves one caller at a time. A
-- bitmap that is changed in place is put back under its term. Go leaves the order of the terms in a
-- flush open.
pub mod Posted
pub mod Change
pub mod Changes
pub mod Flushed
use semadb.Base.{Bool, List, Option, [], false, if◌then◌else◌, none, not, some, ℕ, ◌||◌, ◌∷◌, ◌++◌}
use semadb.Base.Result.{Result, err, ok, or_panic, other, ◌>>=◌}
use semadb.Conversion.{Bytes}
use semadb.Diskstore
use semadb.Diskstore.{MemBucket}
use semadb.Diskstore.Order.{bytes_eq}
use semadb.Inverted.Terms.{Terms}

-- what is used of `roaring64.Bitmap`; a checked operation tells whether it changed the set
pub record Bitmaps (S : Type 0) : Type 0 where
  pub blank : S
  pub contains : S → ℕ → Bool
  pub checked_add : S → ℕ → Bool × S
  pub checked_remove : S → ℕ → Bool × S
  pub is_empty : S → Bool
  pub to_bytes : S → Result Bytes
  pub from_bytes : Bytes → Result S
  pub fast_or : List S → S
  pub fast_and : List S → S

pub record SetCacheItem (S : Type 0) : Type 0 where
  pub set : S
  pub is_dirty : Bool

pub record IndexInverted (T S : Type 0) : Type 0 where
  pub set_cache : List (T × SetCacheItem S)
  pub bucket : MemBucket

-- the pointers to the data may be nil
pub record IndexChange (T : Type 0) : Type 0 where
  pub id : ℕ
  pub previous_data : Option T
  pub current_data : Option T

pub data Operator : Type 0 where
  equals not_equals starts_with greater_than greater_or_eq : Operator
  less_than less_or_eq in_range contains_all contains_any unknown : Operator

module _ {T V : Type 0} (terms : Terms T) where
  -- the cache as a Go map
  unfoldable pub find : T → List (T × V) → Option V
  find t [] = none
  find t ((u, v) ∷ m) = if terms.same u t then some v else find t m

  unfoldable pub store : T → V → List (T × V) → List (T × V)
  store t v [] = (t, v) ∷ []
  store t v ((u, w) ∷ m) = if terms.same u t then (t, v) ∷ m else (u, w) ∷ store t v m

module _ {T S : Type 0} (terms : Terms T) (bitmaps : Bitmaps S) where
  unfoldable pub new_index_inverted : MemBucket → IndexInverted T S
  new_index_inverted b = record { set_cache = []; bucket = b }

  unfoldable pub read_set : Option Bytes → Result S
  read_set none = ok bitmaps.blank
  read_set (some bytes) = bitmaps.from_bytes bytes

  -- the bytes that the caller has, or those of the bucket
  abbrev pub set_bytes_or : Option Bytes → Option Bytes → Option Bytes
  set_bytes_or none stored = stored
  set_bytes_or (some bytes) stored = some bytes

  unfoldable pub get_set_cache_item :
      IndexInverted T S → T → Option Bytes → Result (SetCacheItem S × IndexInverted T S)
  get_set_cache_item inv value set_bytes = elim (find terms value inv.set_cache) [
    | some item ↦ ok (item, inv)
    | none ↦ do
      s ← read_set (set_bytes_or set_bytes (Diskstore.get inv.bucket (terms.to_key value)))
      let item : SetCacheItem S = record { set = s; is_dirty = false }
      ok (item, record inv { set_cache = store terms value item inv.set_cache })
  ]

  -- a checked operation on the set of a term
  pub change_set : (S → ℕ → Bool × S) → IndexInverted T S → T → ℕ → Result (IndexInverted T S)
  change_set operation inv value id = do
    (item, inv') ← get_set_cache_item inv value none
    let changed : SetCacheItem S = record {
      set = (operation item.set id).1;
      is_dirty = (operation item.set id).0 || item.is_dirty;
    }
    ok (record inv' { set_cache = store terms value changed inv'.set_cache })

  -- the cases of `processChange`, on what the pointers point to
  pub process_data : IndexInverted T S → ℕ → Option T → Option T → Result (IndexInverted T S)
  process_data inv id none none = ok inv
  process_data inv id none (some current) = change_set bitmaps.checked_add inv current id
  process_data inv id (some previous) none = change_set bitmaps.checked_remove inv previous id
  process_data inv id (some previous) (some current) =
      if not (terms.same previous current)
      then (do
        inv' ← change_set bitmaps.checked_remove inv previous id
        change_set bitmaps.checked_add inv' current id)
      else ok inv

  pub process_change : IndexInverted T S → IndexChange T → Result (IndexInverted T S)
  process_change inv change = process_data inv change.id change.previous_data change.current_data

  -- one round of the loop of `flush`
  pub flush_term : T → SetCacheItem S → MemBucket → Result MemBucket
  flush_term term item b =
      if not item.is_dirty
      then ok b
      else if bitmaps.is_empty item.set
      then Diskstore.delete b (terms.to_key term)
      else (do set_bytes ← bitmaps.to_bytes item.set; Diskstore.put b (terms.to_key term) set_bytes)

  pub flush_terms : List (T × SetCacheItem S) → MemBucket → Result MemBucket
  flush_terms [] b = ok b
  flush_terms ((term, item) ∷ m) b = do b' ← flush_term term item b; flush_terms m b'

  pub flush : IndexInverted T S → Result (IndexInverted T S)
  flush inv = do b ← flush_terms inv.set_cache inv.bucket; ok (record inv { bucket = b })

  pub process_changes : IndexInverted T S → List (IndexChange T) → Result (IndexInverted T S)
  process_changes inv [] = ok inv
  process_changes inv (change ∷ changes) = do
    inv' ← process_change inv change
    process_changes inv' changes

  pub insert_update_delete : IndexInverted T S → List (IndexChange T) → Result (IndexInverted T S)
  insert_update_delete inv changes = do inv' ← process_changes inv changes; flush inv'
