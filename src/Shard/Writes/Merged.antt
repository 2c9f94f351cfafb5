-- ===== src/Shard/Writes/Merged.antt =====
-- What an update makes of the properties of a document.
use semadb.Base.{
  Bool-cases, List, Option, [], if◌then◌else◌, inl, inr, none, refl, some, ◌∙◌, ◌∷◌, ◌≡◌, ap, sym,
}
use semadb.Base.Assoc.{UniqueKeys, insert, lookup, lookup-insert, lookup-remove, remove}
use semadb.Conversion.{Bytes}
use semadb.Diskstore.Order.{bytes_eq, bytes_eq_iff, bytes_key}
use semadb.Shard.Writes.{Documents, is_delete, merge}

module _ {V : Type 0} (documents : Documents V) where
  -- the incoming value of a property, unless it asks for the deletion
  unfoldable pub kept_value : V → Option V
  kept_value v = if is_delete documents v then none else some v

  -- the properties that an update asks for
  unfoldable pub updated_value : Option V → Option V → Option V
  updated_value none existing = existing
  updated_value (some v) existing = kept_value v

  lookup-step :
      (k j : Bytes) (v : V) (existing : List (Bytes × V))
      → lookup j (if is_delete documents v then remove k existing else insert k v existing)
        ≡ (if bytes_eq k j then kept_value v else lookup j existing)
  unfolding kept_value
  lookup-step k j v existing = elim (Bool-cases (is_delete documents v)) [
    | inl gone ↦ rw (kept_value, gone) (lookup-remove k j existing)
    | inr stays ↦ rw (kept_value, stays) (lookup-insert k j v existing)
  ]

  -- A property of the merged document has the incoming value if the update names it, or is absent if
  -- that value is the word that asks for its deletion; a property that the update does not name is as it
  -- was. (No property stands twice in the update.)
  pub merge_lem :
      (incoming existing : List (Bytes × V)) (j : Bytes)
      → UniqueKeys incoming
      → lookup j (merge documents existing incoming)
        ≡ updated_value (lookup j incoming) (lookup j existing)
  unfolding merge updated_value lookup
  merge_lem [] existing j u = refl
  merge_lem ((k, v) ∷ incoming) existing j u =
      merge_lem incoming (if is_delete documents v then remove k existing else insert k v existing)
        j u.1
      ∙ elim (Bool-cases (bytes_eq k j)) [
        | inl same ↦
            let equal : k ≡ j = (bytes_eq_iff k j).0 same in
            let named_once : lookup j incoming ≡ none =
              ap (λ i. lookup i incoming) (sym equal) ∙ u.0 in
            rw (named_once, same) (lookup-step k j v existing ∙ rw same refl)
        | inr other ↦
            rw other
              (ap (updated_value (lookup j incoming)) (lookup-step k j v existing ∙ rw other refl))
      ]
