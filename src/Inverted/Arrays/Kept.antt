-- ===== src/Inverted/Arrays/Kept.antt =====
-- A point whose array of terms changes has afterwards exactly its current terms.
use mathlib.Core.List.{append-nil}
use semadb.Base.{
  All, All-append, Bool, Bool-cases, List, [], arith, if◌then◌else◌, inl, inr, none, not, refl,
  some, true, ℕ, ◌&&◌, ◌++◌, ◌==◌, ◌||◌, ◌≡◌, ◌∙◌, ◌∷◌,
}
use semadb.Base.Result.{ok}
use semadb.Inverted.Arrays.{
  IndexArrayChange, added, all_changes, array_changes, has_term, insert_update_delete_array,
  removed, term_set,
}
use semadb.Inverted.Index.{Bitmaps, IndexChange, IndexInverted, new_index_inverted}
use semadb.Inverted.Index.Changes.{IsChangeData, changed_all, changed_posts}
use semadb.Inverted.Index.Flushed.{insert_update_delete_lem}
use semadb.Inverted.Index.Posted.{IsBitmaps, IsSound, is_posted}
use semadb.Inverted.Terms.{IsTerms, Terms}

module _ {T : Type 0} (terms : Terms T) (IsValue : T → Type 0) (below : T → T → Bool)
    (laws : IsTerms terms IsValue below) where
  -- terms that are the same are in the same lists
  has_term_same :
      (t u : T) (l : List T) → terms.same t u ≡ true → has_term terms u l ≡ has_term terms t l
  unfolding has_term
  has_term_same t u [] h = refl
  has_term_same t u (w ∷ l) h = ground (
    arith,
    has_term_same t u l h,
    laws.same_trans w t u,
    laws.same_trans w u t,
    laws.same_sym t u,
  )

  has_term-term_set :
      (u : T) (l : List T) → has_term terms u (term_set terms l) ≡ has_term terms u l
  unfolding has_term term_set
  has_term-term_set u [] = refl
  has_term-term_set u (v ∷ l) = elim (Bool-cases (terms.same v u)) [
    | inl same ↦ ground (arith, has_term-term_set u l, has_term_same v u (term_set terms l) same)
    | inr differ ↦ ground (arith, has_term-term_set u l)
  ]

  changed-append :
      (l m : List (IndexChange T)) (old : T → ℕ → Bool) (u : T) (x : ℕ)
      → changed_all terms (l ++ m) old u x ≡ changed_all terms m (changed_all terms l old) u x
  unfolding changed_all
  changed-append [] m old u x = refl
  changed-append (c ∷ l) m old u x = changed-append l m _ u x

  changed-added :
      (id : ℕ) (previous current : List T) (old : T → ℕ → Bool) (u : T) (x : ℕ)
      → changed_all terms (added terms id previous current) old u x ≡ (
          if id == x
          then old u x || (has_term terms u current && not (has_term terms u previous))
          else old u x)
  unfolding changed_all added has_term changed_posts
  changed-added id previous [] old u x = ground arith
  changed-added id previous (v ∷ current) old u x = elim (Bool-cases (has_term terms v previous)) [
    | inl there ↦
        rw there
          (ground (arith, changed-added id previous current old u x, has_term_same v u previous))
    | inr absent ↦ rw absent (
        ground (
          arith,
          changed-added id previous current (changed_posts terms id none (some v) old) u x,
          has_term_same v u previous,
        ))
  ]

  changed-removed :
      (id : ℕ) (current previous : List T) (old : T → ℕ → Bool) (u : T) (x : ℕ)
      → changed_all terms (removed terms id current previous) old u x ≡ (
          if id == x
          then old u x && not (has_term terms u previous && not (has_term terms u current))
          else old u x)
  unfolding changed_all removed has_term changed_posts
  changed-removed id current [] old u x = ground arith
  changed-removed id current (v ∷ previous) old u x = elim (Bool-cases (has_term terms v current)) [
    | inl there ↦
        rw there
          (ground (arith, changed-removed id current previous old u x, has_term_same v u current))
    | inr absent ↦ rw absent (
        ground (
          arith,
          changed-removed id current previous (changed_posts terms id (some v) none old) u x,
          has_term_same v u current,
        ))
  ]

  changed-array :
      (change : IndexArrayChange T) (old : T → ℕ → Bool) (u : T) (x : ℕ)
      → old u change.id ≡ has_term terms u change.previous_data
      → changed_all terms (array_changes terms change) old u x
        ≡ (if change.id == x then has_term terms u change.current_data else old u x)
  unfolding array_changes
  changed-array change old u x has = ground (
    arith,
    changed-append (added terms change.id change.previous_data change.current_data)
        (removed terms change.id change.current_data (term_set terms change.previous_data)) old u x,
    changed-removed change.id change.current_data (term_set terms change.previous_data)
        (changed_all terms (added terms change.id change.previous_data change.current_data) old) u
        x,
    changed-added change.id change.previous_data change.current_data old u x,
    has_term-term_set u change.previous_data,
  )

  added-All :
      (id : ℕ) (previous current : List T)
      → All IsValue current
      → All (IsChangeData IsValue) (added terms id previous current)
  unfolding added
  added-All id previous [] a = tt
  added-All id previous (v ∷ current) a = elim (Bool-cases (has_term terms v previous)) [
    | inl there ↦ rw there (added-All id previous current a.1)
    | inr absent ↦ rw absent ((tt, a.0), added-All id previous current a.1)
  ]

  removed-All :
      (id : ℕ) (current previous : List T)
      → All IsValue previous
      → All (IsChangeData IsValue) (removed terms id current previous)
  unfolding removed
  removed-All id current [] a = tt
  removed-All id current (v ∷ previous) a = elim (Bool-cases (has_term terms v current)) [
    | inl there ↦ rw there (removed-All id current previous a.1)
    | inr absent ↦ rw absent ((a.0, tt), removed-All id current previous a.1)
  ]

  term_set-All : (l : List T) → All IsValue l → All IsValue (term_set terms l)
  unfolding term_set
  term_set-All [] a = tt
  term_set-All (v ∷ l) a = elim (Bool-cases (has_term terms v (term_set terms l))) [
    | inl there ↦ rw there (term_set-All l a.1)
    | inr absent ↦ rw absent (a.0, term_set-All l a.1)
  ]

  -- A sound index that has a point under exactly its previous terms takes a change of its array of
  -- terms without an error; the index that is then opened on the bucket has the point under exactly its
  -- current terms, however often a term is repeated in either array, and every other point as before.
  pub insert_update_delete_array_lem :
      {S : Type 0} (bitmaps : Bitmaps S) (sets : IsBitmaps bitmaps) (inv : IndexInverted T S)
      (change : IndexArrayChange T)
      → IsSound terms bitmaps IsValue inv
      → All IsValue change.previous_data
      → All IsValue change.current_data
      → ((u : T)
          → IsValue u
          → is_posted terms bitmaps inv u change.id ≡ has_term terms u change.previous_data)
      → (inv' : IndexInverted T S) × (insert_update_delete_array terms bitmaps inv (change ∷ [])
          ≡ ok inv')
        × ((u : T) (x : ℕ)
            → IsValue u
            → is_posted terms bitmaps (new_index_inverted terms bitmaps inv'.bucket) u x ≡ (
                if change.id == x
                then has_term terms u change.current_data
                else is_posted terms bitmaps inv u x))
  unfolding insert_update_delete_array all_changes array_changes
  insert_update_delete_array_lem bitmaps sets inv change sound previous current has =
      let data_of =
        All-append (IsChangeData IsValue)
          (added terms change.id change.previous_data change.current_data)
          (removed terms change.id change.current_data (term_set terms change.previous_data))
          (added-All change.id change.previous_data change.current_data current)
          (removed-All change.id change.current_data (term_set terms change.previous_data)
            (term_set-All change.previous_data previous)) in
      let (inv', run, sound', posts) =
        insert_update_delete_lem terms bitmaps IsValue below laws sets inv
          (array_changes terms change) data_of sound in
      (
        inv',
        rw append-nil run,
        λ u x k. posts u x k ∙ changed-array change (is_posted terms bitmaps inv) u x (has u k),
      )
