-- ===== src/Text/Tests.antt =====
-- An index that takes a document, replaces it and loses it; a text is its own list of terms of one byte.
use semadb.Base.{
  Option-cases, Bool-cases, ==_iff, inr, arith, ap, sym, none, if◌then◌else◌, ◌<◌, ◌^◌, ◌==◌, ◌∙◌,
  List, [], false, inl, refl, some, ℕ, ◌≡◌, ◌∷◌,
}
use semadb.Base.Assoc.{insert, lookup, nat_eq}
use semadb.Base.Result.{Result, err, not_found, ok, ◌>>=◌}
use semadb.Conversion.{Bytes, le_bytes, le_value, uint64_to_bytes}
use semadb.Conversion.RoundTrip.{le_value-le_bytes}
use semadb.Diskstore.{MemBucket, get}
use semadb.Diskstore.Order.{bytes_eq, bytes_eq_iff, bytes_eq_refl, bytes_key}
use semadb.Inverted.Numbers.{numbers, numbers-IsBitmaps}
use semadb.Shard.ItemCache.View.{view}
use semadb.Text.{
  occurs, set_storable, doc_storable, DocCacheItem, document_key, num_documents_key,
  AnalysedDocument, DocCodec, IndexText, count_tokens, process_analysed_doc, read_document,
  read_term_set, term_from_key, term_key, last_of, all_but_last,
}
use semadb.Text.Change.{counted, process_analysed_doc_lem}
use semadb.Text.Kept.{IsIndexed, Processed, document_of}
use semadb.Text.Posted.{posted}

abbrev stored_item : DocCacheItem
stored_item = record { terms = (1 ∷ [], 1) ∷ []; length = 1 }

-- an encoding of this one document
abbrev codec : DocCodec
codec = record { marshal = λ d. ok (9 ∷ []); unmarshal = λ v. ok stored_item }

abbrev size_of : List ℕ → ℕ
size_of s = 0

-- a bucket that has the document 5 with the term 1
abbrev stored_bucket : MemBucket
stored_bucket = record {
  entries =
      (num_documents_key, uint64_to_bytes 1)
      ∷ (term_key (1 ∷ []), 5 ∷ [])
      ∷ (document_key 5, 9 ∷ [])
      ∷ [];
  is_read_only = false;
}

abbrev index_over : MemBucket → IndexText (List ℕ)
index_over b = record {
  set_cache = record { items = []; is_all_in_cache = false; bucket = b };
  doc_cache = record { items = []; is_all_in_cache = false; bucket = b };
  num_docs = 1;
  bucket = b;
}

-- the keys of two terms, and of two documents
term_key-same : (t : Bytes) → bytes_eq (term_key (1 ∷ [])) (term_key t) ≡ bytes_eq (1 ∷ []) t
unfolding term_key
term_key-same [] = ground arith
term_key-same (x ∷ []) = ground arith
term_key-same (x ∷ y ∷ []) = ground arith
term_key-same (x ∷ y ∷ z ∷ l) = ground arith

document_key-same : (j : ℕ) → j < 2 ^ 64 → bytes_eq (document_key 5) (document_key j) ≡ (5 == j)
unfolding document_key
document_key-same j small = elim (Bool-cases (5 == j)) [
  | inl same ↦ rw (same, ← (==_iff 5 j).0 same) (bytes_eq_refl (100 ∷ le_bytes 8 5))
  | inr other ↦ elim (Bool-cases (bytes_eq (le_bytes 8 5) (le_bytes 8 j))) [
    | inr apart ↦ rw (other, apart) refl
    | inl alike ↦
        let equal = (bytes_eq_iff (le_bytes 8 5) (le_bytes 8 j)).0 alike in
        let five : 5 ≡ j =
          sym (le_value-le_bytes 8 5 (omega arith))
          ∙ ap le_value equal
          ∙ le_value-le_bytes 8 j (omega arith) in
        absurd (ground arith)
  ]
]

stored_set :
    (t : Bytes)
    → get stored_bucket (term_key t) ≡ (if bytes_eq (1 ∷ []) t then some (5 ∷ []) else none)
unfolding get lookup term_key document_key
stored_set t = ap (λ b. if b then some (5 ∷ []) else none) (term_key-same t)

stored_document :
    (j : ℕ)
    → j < 2 ^ 64
    → get stored_bucket (document_key j) ≡ (if 5 == j then some (9 ∷ []) else none)
unfolding get lookup term_key document_key
stored_document j small = ap (λ b. if b then some (9 ∷ []) else none) (document_key-same j small)

term_view :
    (t : Bytes)
    → view (set_storable numbers size_of) (index_over stored_bucket).set_cache t
      ≡ ok (record { set = (if bytes_eq (1 ∷ []) t then 5 ∷ [] else []); is_dirty = false })
unfolding view lookup read_term_set
term_view t = elim (Bool-cases (bytes_eq (1 ∷ []) t)) [
  | inl same ↦ rw (read_term_set, stored_set t, same) refl
  | inr other ↦ rw (read_term_set, stored_set t, other) refl
]

document_view :
    (j : ℕ)
    → j < 2 ^ 64
    → view (doc_storable codec) (index_over stored_bucket).doc_cache j
      ≡ (if 5 == j then ok stored_item else err not_found)
unfolding view lookup read_document
document_view j small = elim (Bool-cases (5 == j)) [
  | inl five ↦ rw (read_document, stored_document j small, five) refl
  | inr apart ↦ rw (read_document, stored_document j small, apart) refl
]

stored-IsIndexed : IsIndexed numbers size_of codec (index_over stored_bucket)
unfolding view lookup read_term_set read_document posted occurs
stored-IsIndexed = record {
  sets_read = λ t. (_, term_view t);
  docs_read = λ id. elim (Option-cases (get stored_bucket (document_key id))) [
    | inl missing ↦ inl (rw (read_document, missing) refl)
    | inr (v, found) ↦ inr (stored_item, rw (read_document, found) refl)
  ];
  matching = λ t id small. elim (Bool-cases (bytes_eq (1 ∷ []) t)) [
    | inl same ↦ elim (Bool-cases (5 == id)) [
      | inl five ↦ rw (posted, term_view t, document_view id small, same, five) (ground arith)
      | inr apart ↦ rw (posted, term_view t, document_view id small, same, apart) (ground arith)
    ]
    | inr other ↦ elim (Bool-cases (5 == id)) [
      | inl five ↦ rw (posted, term_view t, document_view id small, other, five) (ground arith)
      | inr apart ↦ rw (posted, term_view t, document_view id small, other, apart) refl
    ]
  ];
}

-- "a b a" and its terms
tokens_counted :
    count_tokens ((1 ∷ []) ∷ (2 ∷ []) ∷ (1 ∷ []) ∷ []) [] ≡ (1 ∷ [], 2) ∷ (2 ∷ [], 1) ∷ []
unfolding count_tokens insert lookup
tokens_counted = refl

key_read_back : term_from_key (term_key (7 ∷ 8 ∷ [])) ≡ some (7 ∷ 8 ∷ [])
unfolding term_from_key term_key last_of all_but_last
key_read_back = refl

-- the document 5 with another text
abbrev next_document : AnalysedDocument
next_document = record { id = 5; frequencies = (1 ∷ [], 2) ∷ (2 ∷ [], 1) ∷ []; length = 3 }

process_analysed_doc_lem_example :
    Processed numbers size_of codec next_document
      (index_over stored_bucket)
      (process_analysed_doc numbers size_of codec next_document (index_over stored_bucket))
      (counted (document_of numbers size_of codec (index_over stored_bucket) 5) 3 1)
process_analysed_doc_lem_example =
    process_analysed_doc_lem numbers size_of codec numbers-IsBitmaps next_document
      (index_over stored_bucket) (omega arith) stored-IsIndexed

abbrev bytewise : Bytes → Result (List Bytes)
bytewise [] = ok []
bytewise (x ∷ l) = bytewise l >>= λ terms. ok ((x ∷ []) ∷ terms)
