-- ===== src/Text/Kept.antt =====
-- What the processing of a document keeps: the sets of the terms are those of the documents. This file
-- is about a document that the index does not have.
use semadb.Base.{
  ==_iff, ==_refl, Bool, Bool-cases, [], ap, arith, false, if◌then◌else◌, inl, inr, refl, subst,
  sym, true, ℕ, ◌%◌, ◌+◌, ◌<◌, ◌==◌, ◌^◌, ◌≡◌, ◌∷◌, ◌∙◌,
}
use semadb.Base.Assoc.{nat_eq}
use semadb.Base.Result.{Result, err, not_found, ok, panic}
use semadb.Conversion.{Bytes}
use semadb.Inverted.Index.{Bitmaps}
use semadb.Inverted.Index.Posted.{IsBitmaps}
use semadb.Shard.ItemCache
use semadb.Shard.ItemCache.{ItemCache, Storable}
use semadb.Shard.ItemCache.InPlace.{put-bucket}
use semadb.Shard.ItemCache.View.{IsReadable, among, put_lem, view}
use semadb.Text.{
  AnalysedDocument, DocCacheItem, DocCodec, IndexText, TermSet, doc_storable, occurs, process_new,
}
use semadb.Text.Posted.{AllRead, change_terms_lem, occurs-nil, posted}

-- the document that an index has for an id
abbrev pub has_in : Bytes → Result DocCacheItem → Bool
has_in t panic = false
has_in t (err e) = false
has_in t (ok d) = occurs t d.terms

pub among_one :
    (storable : Storable ℕ DocCacheItem) (id j : ℕ) → among storable j (id ∷ []) ≡ (id == j)
unfolding among
among_one storable id j = ground arith

module _ {S : Type 0} (bitmaps : Bitmaps S) (size_in_bytes : S → ℕ) (codec : DocCodec) where
  abbrev pub document_of : IndexText S → ℕ → Result DocCacheItem
  document_of index id = view (doc_storable codec) index.doc_cache id

  -- Every set can be read, the bucket has a document or none for every id, and a document, whose id
  -- has 64 bits, is in the set of a term just if it has the term.
  pub record IsIndexed (index : IndexText S) : Type 0 where
    pub sets_read : AllRead bitmaps size_in_bytes codec index.set_cache
    pub docs_read : IsReadable (doc_storable codec) index.doc_cache.bucket
    pub matching :
        (t : Bytes) (id : ℕ)
        → id < 2 ^ 64
        → posted bitmaps size_in_bytes codec index.set_cache t id ≡ has_in t (document_of index id)

  -- the document that is stored for an analysed one, if it has a token
  abbrev pub stored : AnalysedDocument → DocCacheItem
  stored ad = record { terms = ad.frequencies; length = ad.length }

  -- The outcome of processing a document: an index that is sound, has the document, or none if it has no
  -- token, and the other documents as before, and counts as many documents as given.
  abbrev pub Processed : AnalysedDocument → IndexText S → Result (IndexText S) → ℕ → Type 0
  Processed ad index r count =
      (index' : IndexText S) × (r ≡ ok index')
      × IsIndexed index'
      × ((j : ℕ)
          → document_of index' j ≡ (
              if ad.id == j
              then (if ad.length == 0 then err not_found else ok (stored ad))
              else document_of index j))
      × (index'.num_docs ≡ count)

  abbrev pub Matches : ItemCache Bytes (TermSet S) → ItemCache ℕ DocCacheItem → Type 0
  Matches sets docs =
      (t : Bytes) (j : ℕ)
      → j < 2 ^ 64
      → posted bitmaps size_in_bytes codec sets t j ≡ has_in t (view (doc_storable codec) docs j)

  -- a change of one document, in the sets and in the documents
  pub matching_changed :
      (id : ℕ) (sets sets' : ItemCache Bytes (TermSet S)) (docs docs' : ItemCache ℕ DocCacheItem)
      (d : Result DocCacheItem)
      → ((t : Bytes) (j : ℕ)
          → (id == j) ≡ false
          → posted bitmaps size_in_bytes codec sets' t j
            ≡ posted bitmaps size_in_bytes codec sets t j)
      → ((t : Bytes) → posted bitmaps size_in_bytes codec sets' t id ≡ has_in t d)
      → ((j : ℕ)
          → view (doc_storable codec) docs' j
            ≡ (if id == j then d else view (doc_storable codec) docs j))
      → Matches sets docs
      → Matches sets' docs'
  matching_changed id sets sets' docs docs' d others here view' m t j small =
      elim (Bool-cases (id == j)) [
        | inl same ↦
            let e = (==_iff id j).0 same in
            let now : view (doc_storable codec) docs' j ≡ d = view' j ∙ rw same refl in
            ap (posted bitmaps size_in_bytes codec sets' t) (sym e)
            ∙ here t
            ∙ sym (ap (has_in t) now)
        | inr other ↦
            let kept : view (doc_storable codec) docs' j ≡ view (doc_storable codec) docs j =
              view' j ∙ rw other refl in
            others t j other ∙ m t j small ∙ sym (ap (has_in t) kept)
      ]

  module _ (laws : IsBitmaps bitmaps) where
    pub adds :
        (s : S) (id x : ℕ)
        → bitmaps.contains (bitmaps.checked_add s id).1 x
          ≡ (if id == x then true else bitmaps.contains s x)
    adds s id x = ground (arith, laws.add_set s id x)

    pub removes :
        (s : S) (id x : ℕ)
        → bitmaps.contains (bitmaps.checked_remove s id).1 x
          ≡ (if id == x then false else bitmaps.contains s x)
    removes s id x = ground (arith, laws.remove_set s id x)

    pub put_read :
        (id : ℕ) (d : DocCacheItem) (c : ItemCache ℕ DocCacheItem)
        → IsReadable (doc_storable codec) c.bucket
        → IsReadable (doc_storable codec) (ItemCache.put (doc_storable codec) c id d).bucket
    put_read id d c readable =
        subst (λ b. IsReadable (doc_storable codec) b)
          (sym (put-bucket (doc_storable codec) c id d)) readable

    pub process_new_lem :
        (ad : AnalysedDocument) (index : IndexText S)
        → ad.id < 2 ^ 64
        → IsIndexed index
        → document_of index ad.id ≡ err not_found
        → Processed ad index
            (process_new bitmaps size_in_bytes codec ad index)
            (if ad.length == 0 then index.num_docs else (index.num_docs + 1) % 2 ^ 64)
    unfolding process_new
    process_new_lem ad index small i absent = elim (Bool-cases (ad.length == 0)) [
      | inl nothing ↦ (
        index,
        rw (process_new, nothing) refl,
        i,
        λ j. elim (Bool-cases (ad.id == j)) [
          | inl same ↦ rw (same, nothing, ← (==_iff ad.id j).0 same) absent
          | inr other ↦ rw other refl
        ],
        rw nothing refl,
      )
      | inr some_tokens ↦
          let (sets, done, readable, shown) =
            change_terms_lem bitmaps size_in_bytes codec bitmaps.checked_add true adds ad.id []
              ad.frequencies index.set_cache i.sets_read in
          let docs = ItemCache.put (doc_storable codec) index.doc_cache ad.id (stored ad) in
          let view' = put_lem (doc_storable codec) index.doc_cache ad.id (stored ad) in
          let before : (t : Bytes)
              → posted bitmaps size_in_bytes codec index.set_cache t ad.id ≡ false =
            λ t. i.matching t ad.id small ∙ ap (has_in t) absent in
          (
            record index {
              set_cache = sets;
              doc_cache = docs;
              num_docs = (index.num_docs + 1) % 2 ^ 64;
            },
            rw (process_new, some_tokens, done) refl,
            record {
              sets_read = readable;
              docs_read = put_read ad.id (stored ad) index.doc_cache i.docs_read;
              matching =
                  matching_changed ad.id index.set_cache sets index.doc_cache docs (ok (stored ad))
                    (λ t j other. shown t j ∙ rw other (ground arith))
                    (λ t. shown t ad.id ∙ rw (==_refl ad.id, occurs-nil t, before t) (ground arith))
                    view' i.matching;
            },
            λ j. view' j ∙ rw some_tokens refl,
            rw some_tokens refl,
          )
    ]
