-- ===== src/Inverted/Index/Posted.antt =====
-- An index as a relation between terms and points: what a change makes of it, and what a flush writes.
use semadb.Base.{
  All, Bool, Bool-cases, List, [], arith, false, if◌then◌else◌, inl, inr, none, not, refl, some,
  true, ℕ, ◌&&◌, ◌==◌, ◌||◌, ◌≡◌, ◌∙◌, ◌∷◌, ◌⊎◌,
}
use semadb.Base.Result.{Result, err, ok, panic}
use semadb.Conversion.{Bytes}
use semadb.Diskstore
use semadb.Diskstore.{MemBucket}
use semadb.Inverted.Index.{Bitmaps, IndexInverted, SetCacheItem, find, read_set, store}
use semadb.Inverted.Terms.{IsTerms, Terms}

module _ {S : Type 0} (bitmaps : Bitmaps S) (x : ℕ) where
  unfoldable pub any_contains : List S → Bool
  any_contains [] = false
  any_contains (s ∷ l) = bitmaps.contains s x || any_contains l

  unfoldable pub all_contain : List S → Bool
  all_contain [] = true
  all_contain (s ∷ l) = bitmaps.contains s x && all_contain l

-- What the library of bitmaps promises: a checked operation adds or removes one number and tells
-- whether it changed the set, an empty set contains nothing, a set is read back from its bytes, a
-- union contains what one of its sets contains, and an intersection what all of them contain.
pub record IsBitmaps {S : Type 0} (bitmaps : Bitmaps S) : Type 0 where
  pub blank_lem : (x : ℕ) → bitmaps.contains bitmaps.blank x ≡ false
  pub add_flag : (s : S) (id : ℕ) → (bitmaps.checked_add s id).0 ≡ not (bitmaps.contains s id)
  pub add_set :
      (s : S) (id x : ℕ)
      → bitmaps.contains (bitmaps.checked_add s id).1 x ≡ (id == x || bitmaps.contains s x)
  pub remove_flag : (s : S) (id : ℕ) → (bitmaps.checked_remove s id).0 ≡ bitmaps.contains s id
  pub remove_set :
      (s : S) (id x : ℕ)
      → bitmaps.contains (bitmaps.checked_remove s id).1 x ≡ (not (id == x) && bitmaps.contains s x)
  pub is_empty_lem : (s : S) → bitmaps.is_empty s ≡ true → (x : ℕ) → bitmaps.contains s x ≡ false
  pub bytes_lem :
      (s : S)
      → (bytes : Bytes) × (bitmaps.to_bytes s ≡ ok bytes)
        × (read : S) × (bitmaps.from_bytes bytes ≡ ok read)
        × ((x : ℕ) → bitmaps.contains read x ≡ bitmaps.contains s x)
  pub fast_or_lem :
      (l : List S) (x : ℕ) → bitmaps.contains (bitmaps.fast_or l) x ≡ any_contains bitmaps x l
  pub fast_and_lem :
      (s : S) (l : List S) (x : ℕ)
      → bitmaps.contains (bitmaps.fast_and (s ∷ l)) x ≡ all_contain bitmaps x (s ∷ l)

module _ {T V : Type 0} (terms : Terms T) where
  -- no two terms of the cache are the same
  abbrev pub UniqueTerms : List (T × V) → Type 0
  UniqueTerms [] = Unit {0}
  UniqueTerms ((t, v) ∷ m) = (find terms t m ≡ none) × UniqueTerms m

module _ {T V : Type 0} (terms : Terms T) (IsValue : T → Type 0) (below : T → T → Bool)
    (laws : IsTerms terms IsValue below) where
  pub find-store :
      (t u : T) (v : V) (m : List (T × V))
      → find terms u (store terms t v m) ≡ (if terms.same t u then some v else find terms u m)
  unfolding find store
  find-store t u v [] = refl
  find-store t u v ((w, x) ∷ m) = ground (
    arith,
    find-store t u v m,
    laws.same_sym w t,
    laws.same_sym t u,
    laws.same_trans t w u,
    laws.same_trans w t u,
    laws.same_trans w u t,
    laws.same_sym t w,
    laws.same_sym u t,
  )

  -- terms that are the same are found alike
  pub find_same :
      (t u : T) (m : List (T × V)) → terms.same t u ≡ true → find terms u m ≡ find terms t m
  unfolding find
  find_same t u [] h = refl
  find_same t u ((w, x) ∷ m) h =
      ground
        (arith, find_same t u m h, laws.same_trans w t u, laws.same_trans w u t, laws.same_sym t u)

  pub store-UniqueTerms :
      (t : T) (v : V) (m : List (T × V))
      → UniqueTerms terms m
      → UniqueTerms terms (store terms t v m)
  unfolding find store
  store-UniqueTerms t v [] u = (refl, tt)
  store-UniqueTerms t v ((w, x) ∷ m) u = elim (Bool-cases (terms.same w t)) [
    | inl same ↦ rw same (find_same w t m same ∙ u.0, u.1)
    | inr differ ↦
        rw differ
          (ground (arith, find-store t w v m, laws.same_sym t w), store-UniqueTerms t v m u.1)
  ]

  pub All-store {κ} :
      (P : T × V → Type κ) (t : T) (v : V) (m : List (T × V))
      → P (t, v)
      → All P m
      → All P (store terms t v m)
  unfolding store
  All-store P t v [] p a = (p, tt)
  All-store P t v ((w, x) ∷ m) p a = elim (Bool-cases (terms.same w t)) [
    | inl same ↦ rw same (p, a.1)
    | inr differ ↦ rw differ (a.0, All-store P t v m p a.1)
  ]

module _ {T S : Type 0} (terms : Terms T) (bitmaps : Bitmaps S) where
  -- what a read of the bytes contains
  unfoldable pub contains_read : Result S → ℕ → Bool
  contains_read (ok s) x = bitmaps.contains s x
  contains_read (err e) x = false
  contains_read panic x = false

  -- the bucket has the point among those of the term
  unfoldable pub is_stored : MemBucket → T → ℕ → Bool
  is_stored b t x = contains_read (read_set terms bitmaps (Diskstore.get b (terms.to_key t))) x

  -- the index has the point among those of the term, in its cache or else in its bucket
  unfoldable pub is_posted : IndexInverted T S → T → ℕ → Bool
  is_posted inv t x = elim (find terms t inv.set_cache) [
    | some item ↦ bitmaps.contains item.set x
    | none ↦ is_stored inv.bucket t x
  ]

  -- every value of the bucket is the bytes of a set, and every key that of a term
  abbrev pub IsReadable : (T → Type 0) → MemBucket → Type 0
  IsReadable IsValue b =
      (k : Bytes)
      → ((s : S) × (read_set terms bitmaps (Diskstore.get b k) ≡ ok s))
        × ((Diskstore.get b k ≡ none) ⊎ ((t : T) × IsValue t × (terms.to_key t ≡ k)))

  -- an item of the cache that will not be written is in the bucket already
  abbrev pub IsSettled : (T → Type 0) → MemBucket → T × SetCacheItem S → Type 0
  IsSettled IsValue b (t, item) =
      IsValue t
      × ((item.is_dirty ≡ true) ⊎ ((x : ℕ) → bitmaps.contains item.set x ≡ is_stored b t x))

  -- what holds of an index between its operations
  pub record IsSound (IsValue : T → Type 0) (inv : IndexInverted T S) : Type 0 where
    pub unique : UniqueTerms terms inv.set_cache
    pub settled : All (IsSettled IsValue inv.bucket) inv.set_cache
    pub readable : IsReadable IsValue inv.bucket
    pub writable : inv.bucket.is_read_only ≡ false
