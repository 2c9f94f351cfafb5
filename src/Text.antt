-- ===== src/Text.antt =====
-- shard/index/text/text.go: for each term the set of the documents that have it, and for each document
-- its terms with how often they occur, kept in two caches over one bucket. The analysis of a text, the
-- bitmaps and msgpack are third-party code and parameters. The workers that analyse documents hand
-- them on in any order, which is the order of a list. The scores of a search and their ranking, float
-- arithmetic, are not modelled: of a search the set of the documents is (Search).
pub mod Posted
pub mod Change
pub mod Kept
pub mod Search
mod Tests
use semadb.Base.{
  Bool, List, Option, [], drop, false, if◌then◌else◌, length, ltb, none, not, some, suc, take, true,
  ℕ, ◌%◌, ◌&&◌, ◌*◌, ◌+◌, ◌-◌, ◌==◌, ◌^◌, ◌||◌, ◌++◌, ◌∷◌,
}
use semadb.Base.Assoc.{insert, lookup, nat_eq}
use semadb.Base.Result.{Result, err, not_found, ok, or_panic, panic, ◌>>=◌}
use semadb.Conversion.{Bytes, bytes_to_uint64, le_bytes, le_read, uint64_to_bytes}
use semadb.Diskstore
use semadb.Diskstore.{MemBucket}
use semadb.Diskstore.Order.{bytes_key}
use semadb.Inverted.Index.{Bitmaps}
use semadb.Shard.ItemCache
use semadb.Shard.ItemCache.{ItemCache, Storable, change_in_place}

-- "_numDocuments"
abbrev pub num_documents_key : Bytes
num_documents_key = 95 ∷ 110 ∷ 117 ∷ 109 ∷ 68 ∷ 111 ∷ 99 ∷ 117 ∷ 109 ∷ 101 ∷ 110 ∷ 116 ∷ 115 ∷ []

pub record Document : Type 0 where
  pub id : ℕ
  pub text : Bytes

-- how often each term occurs, in the order of an iteration over the map
abbrev pub Frequencies : Type 0
Frequencies = List (Bytes × ℕ)

pub record AnalysedDocument : Type 0 where
  pub id : ℕ
  pub frequencies : Frequencies
  pub length : ℕ

-- `setCacheItem`
pub record TermSet (S : Type 0) : Type 0 where
  pub set : S
  pub is_dirty : Bool

-- `docCacheItem`, with a `Term` as its frequency
pub record DocCacheItem : Type 0 where
  pub terms : Frequencies
  pub length : ℕ

pub term_key : Bytes → Bytes
term_key term = 116 ∷ term ++ 115 ∷ []

-- the last item of a list that starts with `x`
last_of : ℕ → Bytes → ℕ
last_of x [] = x
last_of x (y ∷ l) = last_of y l

-- the items but the last of a list that starts with `x`
all_but_last : ℕ → Bytes → Bytes
all_but_last x [] = []
all_but_last x (y ∷ l) = x ∷ all_but_last y l

pub term_from_key : Bytes → Option Bytes
term_from_key [] = none
term_from_key (x ∷ []) = none
term_from_key (x ∷ y ∷ l) =
    if not (x == 116) || not (last_of y l == 115) then none else some (all_but_last y l)

-- of an id of 64 bits
pub document_key : ℕ → Bytes
document_key id = 100 ∷ le_bytes 8 id

pub document_from_key : Bytes → Option ℕ
document_from_key [] = none
document_from_key (x ∷ l) =
    if not (length (x ∷ l) == 9) || not (x == 100) then none else le_read 8 l

module _ {S : Type 0} (bitmaps : Bitmaps S) where
  -- a term that the bucket does not have has an empty set
  pub read_term_set : Bytes → MemBucket → Result (TermSet S)
  read_term_set term b = elim (Diskstore.get b (term_key term)) [
    | none ↦ ok (record { set = bitmaps.blank; is_dirty = false })
    | some v ↦ do set ← bitmaps.from_bytes v; ok (record { set = set; is_dirty = false })
  ]

  pub write_term_set : Bytes → TermSet S → MemBucket → Result MemBucket
  write_term_set term si b =
      if bitmaps.is_empty si.set
      then Diskstore.delete b (term_key term)
      else (do set_bytes ← bitmaps.to_bytes si.set; Diskstore.put b (term_key term) set_bytes)

  pub clear_term_set : TermSet S → Bool × TermSet S
  clear_term_set si = if si.is_dirty then (true, record si { is_dirty = false }) else (false, si)

  abbrev pub set_storable : (S → ℕ) → Storable Bytes (TermSet S)
  set_storable size_in_bytes = record {
    id_from_key = term_from_key;
    check_and_clear_dirty = clear_term_set;
    read_from = read_term_set;
    write_to = write_term_set;
    delete_from = λ term si b. Diskstore.delete b (term_key term);
    size_in_memory = λ si. size_in_bytes si.set;
  }

-- msgpack of a document
pub record DocCodec : Type 0 where
  pub marshal : DocCacheItem → Result Bytes
  pub unmarshal : Bytes → Result DocCacheItem

module _ (codec : DocCodec) where
  pub read_document : ℕ → MemBucket → Result DocCacheItem
  read_document id b = elim (Diskstore.get b (document_key id)) [
    | none ↦ err not_found
    | some v ↦ codec.unmarshal v
  ]

  -- a document without terms is deleted
  pub write_document : ℕ → DocCacheItem → MemBucket → Result MemBucket
  write_document id dc b =
      if dc.length == 0
      then Diskstore.delete b (document_key id)
      else (do val ← codec.marshal dc; Diskstore.put b (document_key id) val)

  abbrev pub doc_storable : Storable ℕ DocCacheItem
  doc_storable = record {
    id_from_key = document_from_key;
    check_and_clear_dirty = λ dc. (false, dc);
    read_from = read_document;
    write_to = write_document;
    delete_from = λ id dc b. Diskstore.delete b (document_key id);
    size_in_memory = λ dc. length dc.terms * 4;
  }

pub record IndexText (S : Type 0) : Type 0 where
  pub set_cache : ItemCache Bytes (TermSet S)
  pub doc_cache : ItemCache ℕ DocCacheItem
  pub num_docs : ℕ
  pub bucket : MemBucket

init_size : MemBucket → Result ℕ
init_size b = elim (Diskstore.get b num_documents_key) [
  | none ↦ ok 0
  | some v ↦ or_panic (bytes_to_uint64 v)
]

-- `freq[t.Term]++` for every token
pub count_tokens : List Bytes → Frequencies → Frequencies
count_tokens [] freq = freq
count_tokens (t ∷ tokens) freq =
    count_tokens tokens (insert t (elim (lookup t freq) [ none ↦ 1 | some n ↦ suc n ]) freq)

-- the tokens of a text, by their terms
analyse : (Bytes → Result (List Bytes)) → Document → Result AnalysedDocument
analyse analyser doc = do
  tokens ← analyser doc.text
  ok (record { id = doc.id; frequencies = count_tokens tokens []; length = length tokens })

pub occurs : Bytes → Frequencies → Bool
occurs t freq = elim (lookup t freq) [ none ↦ false | some n ↦ true ]

module _ {S : Type 0} (bitmaps : Bitmaps S) (size_in_bytes : S → ℕ) (codec : DocCodec) where
  pub new_index_text : MemBucket → Result (IndexText S)
  new_index_text b = do
    n ← init_size b
    ok (record {
      set_cache = ItemCache.new_item_cache (set_storable bitmaps size_in_bytes) b;
      doc_cache = ItemCache.new_item_cache (doc_storable codec) b;
      num_docs = n;
      bucket = b;
    })

  -- one document in the set of one term, by `CheckedAdd` or `CheckedRemove`
  change_term :
      (S → ℕ → Bool × S)
      → ℕ
      → Bytes
      → ItemCache Bytes (TermSet S)
      → Result (ItemCache Bytes (TermSet S))
  change_term op id term sets = do
    (item, sets') ← ItemCache.get (set_storable bitmaps size_in_bytes) sets term
    let (changed, set) = op item.set id in
        ok (
          change_in_place (set_storable bitmaps size_in_bytes) sets' term
            (record { set = set; is_dirty = changed || item.is_dirty }))

  -- the loops over the terms of a document, which pass over the terms of another
  pub change_terms :
      (S → ℕ → Bool × S)
      → ℕ
      → Frequencies
      → Frequencies
      → ItemCache Bytes (TermSet S)
      → Result (ItemCache Bytes (TermSet S))
  change_terms op id skipped [] sets = ok sets
  change_terms op id skipped ((term, n) ∷ terms) sets =
      if occurs term skipped
      then change_terms op id skipped terms sets
      else (do sets' ← change_term op id term sets; change_terms op id skipped terms sets')

  -- the cases of a document that the index does not have
  pub process_new : AnalysedDocument → IndexText S → Result (IndexText S)
  process_new ad index = if ad.length == 0 then ok index else (do
    sets ← change_terms bitmaps.checked_add ad.id [] ad.frequencies index.set_cache
    let docs =
          ItemCache.put (doc_storable codec) index.doc_cache ad.id
            (record { terms = ad.frequencies; length = ad.length }) in
        ok (record index {
          set_cache = sets;
          doc_cache = docs;
          num_docs = (index.num_docs + 1) % 2 ^ 64;
        }))

  -- and of one that it has
  pub process_known : AnalysedDocument → DocCacheItem → IndexText S → Result (IndexText S)
  process_known ad doc_item index =
      if ad.length == 0
      then (do
        sets ← change_terms bitmaps.checked_remove ad.id [] doc_item.terms index.set_cache
        docs ← ItemCache.delete (doc_storable codec) index.doc_cache (ad.id ∷ [])
        ok (record index {
          set_cache = sets;
          doc_cache = docs;
          num_docs = (index.num_docs + (2 ^ 64 - 1)) % 2 ^ 64;
        }))
      else (do
        kept ←
            change_terms bitmaps.checked_remove ad.id ad.frequencies doc_item.terms index.set_cache
        sets ← change_terms bitmaps.checked_add ad.id doc_item.terms ad.frequencies kept
        let docs =
              ItemCache.put (doc_storable codec) index.doc_cache ad.id
                (record { terms = ad.frequencies; length = ad.length }) in
            ok (record index { set_cache = sets; doc_cache = docs }))

  process_read :
      AnalysedDocument
      → IndexText S
      → Result (DocCacheItem × ItemCache ℕ DocCacheItem)
      → Result (IndexText S)
  process_read ad index (ok (doc_item, docs)) =
      process_known ad doc_item (record index { doc_cache = docs })
  process_read ad index (err not_found) = process_new ad index
  process_read ad index (err e) = err e
  process_read ad index panic = panic

  pub process_analysed_doc : AnalysedDocument → IndexText S → Result (IndexText S)
  process_analysed_doc ad index =
      process_read ad index (ItemCache.get (doc_storable codec) index.doc_cache ad.id)

  -- the number of documents, then the sets, then the documents, into the one bucket
  pub flush_text : IndexText S → Result (IndexText S)
  flush_text index = do
    b ← Diskstore.put index.bucket num_documents_key (uint64_to_bytes index.num_docs)
    sets ←
        ItemCache.flush (set_storable bitmaps size_in_bytes)
          (ItemCache.update_bucket (set_storable bitmaps size_in_bytes) index.set_cache b)
    docs ←
        ItemCache.flush (doc_storable codec)
          (ItemCache.update_bucket (doc_storable codec) index.doc_cache sets.bucket)
    ok (record index {
      set_cache = ItemCache.update_bucket (set_storable bitmaps size_in_bytes) sets docs.bucket;
      doc_cache = docs;
      bucket = docs.bucket;
    })

  process_all : (Bytes → Result (List Bytes)) → List Document → IndexText S → Result (IndexText S)
  process_all analyser [] index = ok index
  process_all analyser (doc ∷ docs) index = do
    ad ← analyse analyser doc
    index' ← process_analysed_doc ad index
    process_all analyser docs index'

  pub insert_update_delete_text :
      (Bytes → Result (List Bytes)) → List Document → IndexText S → Result (IndexText S)
  insert_update_delete_text analyser docs index = do
    index' ← process_all analyser docs index
    flush_text index'
