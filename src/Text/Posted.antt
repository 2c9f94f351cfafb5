-- ===== src/Text/Posted.antt =====
-- Which documents the sets of the index have, and what a loop over the terms of a document changes.
use semadb.Base.{
  Bool, Bool-cases, [], arith, false, if◌then◌else◌, inl, inr, not, refl, true, ℕ, ◌&&◌, ◌==◌, ◌||◌,
  ◌≡◌, ◌∷◌, ◌∙◌,
}
use semadb.Base.Assoc.{lookup}
use semadb.Base.Result.{Result, err, ok, panic}
use semadb.Conversion.{Bytes}
use semadb.Diskstore.Order.{bytes_eq, bytes_eq_iff, bytes_key}
use semadb.Inverted.Index.{Bitmaps}
use semadb.Shard.ItemCache.{ItemCache, change_in_place}
use semadb.Shard.ItemCache.InPlace.{get-change_in_place}
use semadb.Shard.ItemCache.View.{view}
use semadb.Text.{DocCodec, Frequencies, TermSet, change_term, change_terms, occurs, set_storable}

pub occurs-cons :
    (t u : Bytes) (n : ℕ) (terms : Frequencies)
    → occurs u ((t, n) ∷ terms) ≡ (bytes_eq t u || occurs u terms)
unfolding occurs lookup
occurs-cons t u n terms = ground arith

pub occurs-nil : (u : Bytes) → occurs u [] ≡ false
unfolding occurs lookup
occurs-nil u = refl

module _ {S : Type 0} (bitmaps : Bitmaps S) (size_in_bytes : S → ℕ) (codec : DocCodec) where
  abbrev pub SetCache : Type 0
  SetCache = ItemCache Bytes (TermSet S)

  abbrev pub contained : Result (TermSet S) → ℕ → Bool
  contained panic j = false
  contained (err e) j = false
  contained (ok item) j = bitmaps.contains item.set j

  -- whether a document is in the set of a term
  unfoldable pub posted : SetCache → Bytes → ℕ → Bool
  posted c t j = contained (view (set_storable bitmaps size_in_bytes) c t) j

  -- the set of every term can be read
  abbrev pub AllRead : SetCache → Type 0
  AllRead c =
      (t : Bytes) → (item : TermSet S) × (view (set_storable bitmaps size_in_bytes) c t ≡ ok item)

  module _ (op : S → ℕ → Bool × S) (value : Bool)
      (changes : (s : S) (id x : ℕ)
        → bitmaps.contains (op s id).1 x ≡ (if id == x then value else bitmaps.contains s x)) where
    change_term_lem :
        (id : ℕ) (t : Bytes) (c : SetCache)
        → AllRead c
        → (c' : SetCache) × (change_term bitmaps size_in_bytes codec op id t c ≡ ok c')
          × AllRead c'
          × ((u : Bytes) (j : ℕ)
              → posted c' u j ≡ (if bytes_eq t u && id == j then value else posted c u j))
    unfolding change_term posted
    change_term_lem id t c readable =
        let (item, stands) = readable t in
        let (c₁, got, shown) =
          get-change_in_place (set_storable bitmaps size_in_bytes) c t item stands in
        let item' : TermSet S = record {
          set = (op item.set id).1;
          is_dirty = (op item.set id).0 || item.is_dirty;
        } in
        (
          change_in_place (set_storable bitmaps size_in_bytes) c₁ t item',
          rw (change_term, got) refl,
          λ u. elim (Bool-cases (bytes_eq t u)) [
            | inl same ↦ (item', shown item' u ∙ rw same refl)
            | inr other ↦ ((readable u).0, shown item' u ∙ rw other (readable u).1)
          ],
          λ u j. elim (Bool-cases (bytes_eq t u)) [
            | inl same ↦
                rw (posted, shown item' u, same, ← (bytes_eq_iff t u).0 same, stands)
                  (changes item.set id j)
            | inr other ↦ rw (posted, shown item' u, other) refl
          ],
        )

    -- A loop over the terms of a document succeeds, and changes just that document in the sets of the
    -- terms that are not passed over.
    pub change_terms_lem :
        (id : ℕ) (skipped terms : Frequencies) (c : SetCache)
        → AllRead c
        → (c' : SetCache) × (change_terms bitmaps size_in_bytes codec op id skipped terms c ≡ ok c')
          × AllRead c'
          × ((u : Bytes) (j : ℕ)
              → posted c' u j ≡ (
                  if (occurs u terms && not (occurs u skipped)) && id == j
                  then value
                  else posted c u j))
    unfolding change_terms
    change_terms_lem id skipped [] c readable = (c, refl, readable, λ u j. rw (occurs-nil u) refl)
    change_terms_lem id skipped ((t, n) ∷ terms) c readable = elim (Bool-cases (occurs t skipped)) [
      | inl passed ↦
          let (c', done, readable', shown) = change_terms_lem id skipped terms c readable in
          (
            c',
            rw (change_terms, passed) done,
            readable',
            λ u j. elim (Bool-cases (bytes_eq t u)) [
              | inl same ↦
                  let also : occurs u skipped ≡ true = rw (← (bytes_eq_iff t u).0 same) passed in
                  shown u j ∙ rw (also, occurs-cons t u n terms) (ground arith)
              | inr other ↦ shown u j ∙ rw (occurs-cons t u n terms, other) refl
            ],
          )
      | inr taken ↦
          let (c₁, first, readable₁, shown₁) = change_term_lem id t c readable in
          let (c', done, readable', shown) = change_terms_lem id skipped terms c₁ readable₁ in
          (
            c',
            rw (change_terms, taken, first) done,
            readable',
            λ u j. elim (Bool-cases (bytes_eq t u)) [
              | inl same ↦
                  let also : occurs u skipped ≡ false = rw (← (bytes_eq_iff t u).0 same) taken in
                  ground (arith, shown u j, shown₁ u j, also, occurs-cons t u n terms)
              | inr other ↦ ground (arith, shown u j, shown₁ u j, occurs-cons t u n terms)
            ],
          )
    ]
