-- ===== src/Inverted/Index/Changes.antt =====
-- The changes of an index change which points have which terms, as the changes say.
use semadb.Base.{
  All, Bool, Bool-cases, List, Option, [], arith, false, if◌then◌else◌, inl, inr, none, not, refl,
  some, true, ℕ, ◌&&◌, ◌==◌, ◌≡◌, ◌∙◌, ◌∷◌,
}
use semadb.Base.Result.{Result, ok}
use semadb.Inverted.Index.{
  Bitmaps, IndexChange, IndexInverted, change_set, process_change, process_changes, process_data,
}
use semadb.Inverted.Index.Change.{IsChanged, change_set_lem}
use semadb.Inverted.Index.Posted.{IsBitmaps, IsSound, is_posted}
use semadb.Inverted.Terms.{IsTerms, Terms}

module _ {T : Type 0} (IsValue : T → Type 0) where
  -- a term of a change that is there is a value
  abbrev pub IsData : Option T → Type 0
  IsData none = Unit
  IsData (some t) = IsValue t

  -- both terms of a change are values
  abbrev pub IsChangeData : IndexChange T → Type 0
  IsChangeData change = IsData change.previous_data × IsData change.current_data

module _ {T : Type 0} (terms : Terms T) where
  abbrev pub is_data_of : Option T → T → Bool
  is_data_of none u = false
  is_data_of (some t) u = terms.same t u

  -- after a change of a point, the point has the current term and not the previous one
  unfoldable pub changed_posts : ℕ → Option T → Option T → (T → ℕ → Bool) → T → ℕ → Bool
  changed_posts id previous current old u x =
      if not (id == x)
      then old u x
      else if is_data_of current u && is_data_of previous u
      then old u x
      else if is_data_of current u
      then true
      else if is_data_of previous u
      then false
      else old u x

  -- the changes one after the other
  unfoldable pub changed_all : List (IndexChange T) → (T → ℕ → Bool) → T → ℕ → Bool
  changed_all [] old = old
  changed_all (change ∷ changes) old =
      changed_all changes (changed_posts change.id change.previous_data change.current_data old)

module _ {T S : Type 0} (terms : Terms T) (bitmaps : Bitmaps S) (IsValue : T → Type 0) where
  -- the index is sound, and has the points that `changes` says
  abbrev pub Becomes : (T → ℕ → Bool) → Result (IndexInverted T S) → Type 0
  Becomes posts r =
      (inv' : IndexInverted T S) × (r ≡ ok inv')
      × IsSound terms bitmaps IsValue inv'
      × ((u : T) (x : ℕ) → IsValue u → is_posted terms bitmaps inv' u x ≡ posts u x)

module _ {T S : Type 0} (terms : Terms T) (bitmaps : Bitmaps S) (IsValue : T → Type 0)
    (below : T → T → Bool) (laws : IsTerms terms IsValue below) (sets : IsBitmaps bitmaps) where
  add_law :
      (s : S) (id x : ℕ)
      → bitmaps.contains (bitmaps.checked_add s id).1 x
        ≡ (if id == x then true else bitmaps.contains s x)
  add_law s id x = ground (arith, sets.add_set s id x)

  remove_law :
      (s : S) (id x : ℕ)
      → bitmaps.contains (bitmaps.checked_remove s id).1 x
        ≡ (if id == x then false else bitmaps.contains s x)
  remove_law s id x = ground (arith, sets.remove_set s id x)

  add_lem :
      (inv : IndexInverted T S) (t : T) (id : ℕ)
      → IsValue t
      → IsSound terms bitmaps IsValue inv
      → IsChanged terms bitmaps IsValue below laws sets inv t id true
          (change_set terms bitmaps bitmaps.checked_add inv t id)
  add_lem inv t id v sound =
      change_set_lem terms bitmaps IsValue below laws sets bitmaps.checked_add true inv t id
        (λ s x. add_law s id x) (λ s h. ground (arith, sets.add_flag s id)) v sound

  remove_lem :
      (inv : IndexInverted T S) (t : T) (id : ℕ)
      → IsValue t
      → IsSound terms bitmaps IsValue inv
      → IsChanged terms bitmaps IsValue below laws sets inv t id false
          (change_set terms bitmaps bitmaps.checked_remove inv t id)
  remove_lem inv t id v sound =
      change_set_lem terms bitmaps IsValue below laws sets bitmaps.checked_remove false inv t id
        (λ s x. remove_law s id x) (λ s h. ground (arith, sets.remove_flag s id)) v sound

  process_data_lem :
      (inv : IndexInverted T S) (id : ℕ) (previous current : Option T)
      → IsData IsValue previous
      → IsData IsValue current
      → IsSound terms bitmaps IsValue inv
      → Becomes terms bitmaps IsValue
          (changed_posts terms id previous current (is_posted terms bitmaps inv))
          (process_data terms bitmaps inv id previous current)
  unfolding process_data changed_posts IsChanged
  process_data_lem inv id none none p c sound = (inv, refl, sound, λ u x k. ground arith)
  process_data_lem inv id none (some t) p c sound =
      let (inv', run, sound', posts) = add_lem inv t id c sound in
      (inv', run, sound', λ u x k. posts u x k ∙ ground arith)
  process_data_lem inv id (some t) none p c sound =
      let (inv', run, sound', posts) = remove_lem inv t id p sound in
      (inv', run, sound', λ u x k. posts u x k ∙ ground arith)
  process_data_lem inv id (some s) (some t) p c sound = elim (Bool-cases (terms.same s t)) [
    | inl same ↦ (
      inv,
      rw same refl,
      sound,
      λ u x k. ground (arith, laws.same_trans s t u, laws.same_trans t s u, laws.same_sym s t),
    )
    | inr differ ↦
        let (inv1, run1, sound1, posts1) = remove_lem inv s id p sound in
        let (inv2, run2, sound2, posts2) = add_lem inv1 t id c sound1 in
        (
          inv2,
          rw (differ, run1) run2,
          sound2,
          λ u x k.
              ground (arith, posts1 u x k, posts2 u x k, laws.same_trans s u t, laws.same_sym t u),
        )
  ]

  changed_all_same :
      (changes : List (IndexChange T)) (old new : T → ℕ → Bool) (u : T) (x : ℕ)
      → new u x ≡ old u x
      → changed_all terms changes new u x ≡ changed_all terms changes old u x
  unfolding changed_all changed_posts
  changed_all_same [] old new u x same = same
  changed_all_same (change ∷ changes) old new u x same =
      changed_all_same changes
        (changed_posts terms change.id change.previous_data change.current_data old)
        (changed_posts terms change.id change.previous_data change.current_data new) u x
        (rw (changed_posts, same) refl)

  pub process_changes_lem :
      (inv : IndexInverted T S) (changes : List (IndexChange T))
      → All (IsChangeData IsValue) changes
      → IsSound terms bitmaps IsValue inv
      → Becomes terms bitmaps IsValue
          (changed_all terms changes (is_posted terms bitmaps inv))
          (process_changes terms bitmaps inv changes)
  unfolding process_changes process_change changed_all
  process_changes_lem inv [] data_of sound = (inv, refl, sound, λ u x k. refl)
  process_changes_lem inv (change ∷ changes) data_of sound =
      let (inv1, run1, sound1, posts1) =
        process_data_lem inv change.id change.previous_data change.current_data data_of.0.0
          data_of.0.1 sound in
      let (inv2, run2, sound2, posts2) = process_changes_lem inv1 changes data_of.1 sound1 in
      (
        inv2,
        rw run1 run2,
        sound2,
        λ u x k. posts2 u x k ∙ changed_all_same changes _ _ u x (posts1 u x k),
      )
