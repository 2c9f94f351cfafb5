-- ===== src/Inverted/Arrays.antt =====
-- shard/index/inverted/array.go and string.go: a point with several terms, and strings without their
-- case. An array of terms becomes changes of single terms. Go leaves the order of the removed terms
-- open. `strings.ToLower` is a parameter.
pub mod Kept
use semadb.Base.{
  Bool, List, Option, [], false, if◌then◌else◌, map, none, not, some, ℕ, ◌++◌, ◌||◌, ◌∷◌,
}
use semadb.Base.Result.{Result, err, ok, other, ◌>>=◌}
use semadb.Conversion.{Bytes}
use semadb.Inverted.Index.{
  Bitmaps, IndexChange, IndexInverted, Operator, contains_all, contains_any, equals,
  insert_update_delete,
}
use semadb.Inverted.Search.{search}
use semadb.Inverted.Terms.{Terms, string_terms}

pub record IndexArrayChange (T : Type 0) : Type 0 where
  pub id : ℕ
  pub previous_data : List T
  pub current_data : List T

module _ {T : Type 0} (terms : Terms T) where
  -- `_, ok := set[v]`
  unfoldable pub has_term : T → List T → Bool
  has_term v [] = false
  has_term v (u ∷ l) = terms.same u v || has_term v l

  -- the keys of `prevSet`
  unfoldable pub term_set : List T → List T
  term_set [] = []
  term_set (v ∷ l) = let rest = term_set l in if has_term v rest then rest else v ∷ rest

  -- the loop over the current terms
  unfoldable pub added : ℕ → List T → List T → List (IndexChange T)
  added id previous [] = []
  added id previous (v ∷ current) =
      let rest = added id previous current in
      if not (has_term v previous)
      then record { id = id; previous_data = none; current_data = some v } ∷ rest
      else rest

  -- the loop over the previous terms
  unfoldable pub removed : ℕ → List T → List T → List (IndexChange T)
  removed id current [] = []
  removed id current (v ∷ previous) =
      let rest = removed id current previous in
      if not (has_term v current)
      then record { id = id; previous_data = some v; current_data = none } ∷ rest
      else rest

  unfoldable pub array_changes : IndexArrayChange T → List (IndexChange T)
  array_changes change =
      added change.id change.previous_data change.current_data
      ++ removed change.id change.current_data (term_set change.previous_data)

  unfoldable pub all_changes : List (IndexArrayChange T) → List (IndexChange T)
  all_changes [] = []
  all_changes (change ∷ changes) = array_changes change ++ all_changes changes

module _ {T S : Type 0} (terms : Terms T) (bitmaps : Bitmaps S) where
  pub insert_update_delete_array :
      IndexInverted T S → List (IndexArrayChange T) → Result (IndexInverted T S)
  insert_update_delete_array inv changes =
      insert_update_delete terms bitmaps inv (all_changes terms changes)

  pub equal_sets : IndexInverted T S → List T → Result (List S × IndexInverted T S)
  equal_sets inv [] = ok ([], inv)
  equal_sets inv (q ∷ query) = do
    (set, inv') ← search terms bitmaps inv q q equals
    (sets, inv'') ← equal_sets inv' query
    ok (set ∷ sets, inv'')

  pub combine : Operator → List S → Result S
  combine operator (s ∷ []) = ok s
  combine contains_all sets = ok (bitmaps.fast_and sets)
  combine contains_any sets = ok (bitmaps.fast_or sets)
  combine _ sets = err other

  -- `none` is the nil set for a query without terms
  pub search_array : IndexInverted T S → List T → Operator → Result (Option S × IndexInverted T S)
  search_array inv [] operator = ok (none, inv)
  search_array inv (q ∷ query) operator = do
    (sets, inv') ← equal_sets inv (q ∷ query)
    set ← combine operator sets
    ok (some set, inv')

module _ {S : Type 0} (bitmaps : Bitmaps S) (to_lower : Bytes → Bytes) (case_sensitive : Bool) where
  abbrev lower_option : Option Bytes → Option Bytes
  lower_option none = none
  lower_option (some s) = some (to_lower s)

  pub lower_change : IndexChange Bytes → IndexChange Bytes
  lower_change change = record change {
    previous_data = lower_option change.previous_data;
    current_data = lower_option change.current_data;
  }

  pub insert_update_delete_string :
      IndexInverted Bytes S → List (IndexChange Bytes) → Result (IndexInverted Bytes S)
  insert_update_delete_string inv changes =
      insert_update_delete string_terms bitmaps inv
        (if not case_sensitive then map lower_change changes else changes)

  -- the other end of a range is not changed
  pub search_string :
      IndexInverted Bytes S → Bytes → Bytes → Operator → Result (S × IndexInverted Bytes S)
  search_string inv value end_value operator =
      search string_terms bitmaps inv (if not case_sensitive then to_lower value else value)
        end_value operator

  pub lower_array_change : IndexArrayChange Bytes → IndexArrayChange Bytes
  lower_array_change change = record change {
    previous_data = map to_lower change.previous_data;
    current_data = map to_lower change.current_data;
  }

  pub insert_update_delete_array_string :
      IndexInverted Bytes S → List (IndexArrayChange Bytes) → Result (IndexInverted Bytes S)
  insert_update_delete_array_string inv changes =
      insert_update_delete_array string_terms bitmaps inv
        (if not case_sensitive then map lower_array_change changes else changes)

  pub search_array_string :
      IndexInverted Bytes S → List Bytes → Operator → Result (Option S × IndexInverted Bytes S)
  search_array_string inv value operator =
      search_array string_terms bitmaps inv
        (if not case_sensitive then map to_lower value else value) operator
