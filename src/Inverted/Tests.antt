-- ===== src/Inverted/Tests.antt =====
-- An index of strings over lists of numbers as bitmaps.
use semadb.Base.{
  Bool-cases, List, [], elem, false, if◌then◌else◌, inl, inr, none, refl, some, true, ℕ, ◌==◌, ◌≡◌,
  ◌↔◌, ◌∷◌,
}
use semadb.Base.Assoc.{lookup}
use semadb.Base.Result.{ok}
use semadb.Conversion.{Bytes}
use semadb.Diskstore.{MemBucket, new_mem_bucket}
use semadb.Diskstore.Laws.{get-new_mem_bucket, new_mem_bucket-writable}
use semadb.Diskstore.Order.{bytes_eq, bytes_eq_iff, bytes_key, bytes_lt}
use semadb.Diskstore.Scan.{get-entries}
use semadb.Inverted.Arrays.{IndexArrayChange, has_term, insert_update_delete_array}
use semadb.Inverted.Arrays.Kept.{insert_update_delete_array_lem}
use semadb.Inverted.Index.{
  IndexChange, IndexInverted, find, greater_than, insert_update_delete, new_index_inverted,
  read_set,
}
use semadb.Inverted.Index.Changes.{changed_all, changed_posts}
use semadb.Inverted.Index.Flushed.{insert_update_delete_lem}
use semadb.Inverted.Index.Posted.{IsReadable, IsSound, contains_read, is_posted, is_stored}
use semadb.Inverted.Numbers.{Numbers, numbers, numbers-IsBitmaps}
use semadb.Inverted.Search.{search}
use semadb.Inverted.Search.Found.{is_search, matches, search_lem}
use semadb.Inverted.Sortable.{to_byte_sortable}
use semadb.Inverted.Terms.{AnyBytes, string_terms, string_terms-IsTerms}

abbrev empty_bucket : MemBucket
empty_bucket = new_mem_bucket false

empty_bucket-IsReadable : IsReadable string_terms numbers AnyBytes empty_bucket
unfolding read_set
empty_bucket-IsReadable k = (([], rw get-new_mem_bucket refl), inl (get-new_mem_bucket false k))

abbrev blank_index : IndexInverted Bytes Numbers
blank_index = new_index_inverted string_terms numbers empty_bucket

blank_index-IsSound : IsSound string_terms numbers AnyBytes blank_index
unfolding new_index_inverted
blank_index-IsSound = record {
  unique = tt;
  settled = tt;
  readable = empty_bucket-IsReadable;
  writable = new_mem_bucket-writable;
}

-- point 5 gets a term, changes it and point 6 has the old one
abbrev three_changes : List (IndexChange Bytes)
three_changes =
    record { id = 5; previous_data = none; current_data = some (b'a' ∷ []) }
    ∷ record { id = 5; previous_data = some (b'a' ∷ []); current_data = some (b'b' ∷ []) }
    ∷ record { id = 6; previous_data = none; current_data = some (b'a' ∷ []) }
    ∷ []

insert_update_delete_lem_example :
    (inv : IndexInverted Bytes Numbers) × (insert_update_delete string_terms numbers blank_index
        three_changes
      ≡ ok inv)
    × IsSound string_terms numbers AnyBytes (new_index_inverted string_terms numbers inv.bucket)
    × ((u : Bytes) (x : ℕ)
        → AnyBytes u
        → is_posted string_terms numbers (new_index_inverted string_terms numbers inv.bucket) u x
          ≡ changed_all string_terms three_changes (is_posted string_terms numbers blank_index) u x)
insert_update_delete_lem_example =
    insert_update_delete_lem string_terms numbers AnyBytes bytes_lt string_terms-IsTerms
      numbers-IsBitmaps blank_index three_changes ((tt, tt), ((tt, tt), ((tt, tt), tt)))
      blank_index-IsSound

after_changes : changed_all string_terms three_changes (λ t x. false) (b'a' ∷ []) 5 ≡ false
unfolding changed_all changed_posts
after_changes = refl

-- a point with a repeated term
abbrev repeated_term : IndexArrayChange Bytes
repeated_term = record {
  id = 5;
  previous_data = [];
  current_data = (b'a' ∷ []) ∷ (b'a' ∷ []) ∷ (b'b' ∷ []) ∷ [];
}

nothing_posted :
    (u : Bytes)
    → AnyBytes u
    → is_posted string_terms numbers blank_index u 5 ≡ has_term string_terms u []
unfolding is_posted is_stored new_index_inverted has_term find read_set contains_read
nothing_posted u k = rw (is_stored, get-new_mem_bucket) refl

insert_update_delete_array_lem_example :
    (inv : IndexInverted Bytes Numbers) × (insert_update_delete_array string_terms numbers
        blank_index
        (repeated_term ∷ [])
      ≡ ok inv)
    × ((u : Bytes) (x : ℕ)
        → AnyBytes u
        → is_posted string_terms numbers (new_index_inverted string_terms numbers inv.bucket) u x
          ≡ (if 5 == x
              then has_term string_terms u repeated_term.current_data
              else is_posted string_terms numbers blank_index u x))
insert_update_delete_array_lem_example =
    insert_update_delete_array_lem string_terms AnyBytes bytes_lt string_terms-IsTerms numbers
      numbers-IsBitmaps blank_index repeated_term blank_index-IsSound tt (tt, (tt, (tt, tt)))
      nothing_posted

abbrev two_terms : MemBucket
two_terms = record { entries = (b'a' ∷ [], 5 ∷ []) ∷ (b'b' ∷ [], 6 ∷ []) ∷ []; is_read_only = true }

two_terms-IsReadable : IsReadable string_terms numbers AnyBytes two_terms
unfolding read_set lookup to_byte_sortable
two_terms-IsReadable k = elim (Bool-cases (bytes_eq (b'a' ∷ []) k)) [
  | inl first ↦ (
    (5 ∷ [], rw (get-entries two_terms k, lookup, first) refl),
    inr (b'a' ∷ [], tt, (bytes_eq_iff _ k).0 first),
  )
  | inr other ↦ elim (Bool-cases (bytes_eq (b'b' ∷ []) k)) [
    | inl second ↦ (
      (6 ∷ [], rw (get-entries two_terms k, lookup, other, second) refl),
      inr (b'b' ∷ [], tt, (bytes_eq_iff _ k).0 second),
    )
    | inr neither ↦ (
      ([], rw (get-entries two_terms k, lookup, other, neither) refl),
      inl (rw (get-entries two_terms k, lookup, other, neither) refl),
    )
  ]
]

abbrev read_index : IndexInverted Bytes Numbers
read_index = record { set_cache = []; bucket = two_terms }

search_lem_example :
    (s : Numbers) × (inv : IndexInverted Bytes Numbers) × (search string_terms numbers read_index
        (b'a' ∷ [])
        []
        greater_than
      ≡ ok (s, inv))
    × ((x : ℕ)
        → (elem x s ≡ true) ↔ (
            (t : Bytes) × AnyBytes t
            × (matches string_terms bytes_lt greater_than (b'a' ∷ []) [] t ≡ true)
            × (is_stored string_terms numbers two_terms t x ≡ true)))
unfolding is_posted is_search lookup is_stored find
search_lem_example =
    search_lem string_terms numbers AnyBytes bytes_lt string_terms-IsTerms numbers-IsBitmaps
      two_terms (refl, (refl, tt)) two_terms-IsReadable read_index greater_than (b'a' ∷ []) [] refl
      tt tt refl (λ u x v. refl)
