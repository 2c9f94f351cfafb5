-- ===== src/Text/Change.antt =====
-- The processing of an analysed document, `processAnalysedDoc`.
use semadb.Base.{
  ==_refl, Bool-cases, [], ap, arith, false, if◌then◌else◌, inl, inr, refl, subst, sym, true, ℕ,
  ◌%◌, ◌+◌, ◌-◌, ◌<◌, ◌==◌, ◌^◌, ◌≡◌, ◌∷◌, ◌∙◌,
}
use semadb.Base.Assoc.{nat_eq}
use semadb.Base.Result.{Result, err, not_found, ok, panic}
use semadb.Conversion.{Bytes}
use semadb.Inverted.Index.{Bitmaps}
use semadb.Inverted.Index.Posted.{IsBitmaps}
use semadb.Shard.ItemCache
use semadb.Shard.ItemCache.{ItemCache, Storable}
use semadb.Shard.ItemCache.InPlace.{view-cases}
use semadb.Shard.ItemCache.View.{IsReadable, delete_lem, get_lem, put_lem, view}
use semadb.Text.{
  AnalysedDocument, DocCacheItem, DocCodec, IndexText, doc_storable, occurs, process_analysed_doc,
  process_known, process_read,
}
use semadb.Text.Posted.{change_terms_lem, occurs-nil, posted}
use semadb.Text.Kept.{
  IsIndexed, Processed, adds, among_one, document_of, has_in, matching_changed, process_new_lem,
  put_read, removes, stored,
}

-- the count of the documents after one of them is processed
abbrev pub counted : Result DocCacheItem → ℕ → ℕ → ℕ
counted panic len n = n
counted (err e) len n = if len == 0 then n else (n + 1) % 2 ^ 64
counted (ok d) len n = if len == 0 then (n + (2 ^ 64 - 1)) % 2 ^ 64 else n

module _ {S : Type 0} (bitmaps : Bitmaps S) (size_in_bytes : S → ℕ) (codec : DocCodec)
    (laws : IsBitmaps bitmaps) where
  process_known_lem :
      (ad : AnalysedDocument) (d : DocCacheItem) (index : IndexText S)
      → ad.id < 2 ^ 64
      → IsIndexed bitmaps size_in_bytes codec index
      → document_of bitmaps size_in_bytes codec index ad.id ≡ ok d
      → Processed bitmaps size_in_bytes codec ad index
          (process_known bitmaps size_in_bytes codec ad d index)
          (if ad.length == 0 then (index.num_docs + (2 ^ 64 - 1)) % 2 ^ 64 else index.num_docs)
  unfolding process_known
  process_known_lem ad d index small i stands =
      let before : (t : Bytes)
          → posted bitmaps size_in_bytes codec index.set_cache t ad.id ≡ occurs t d.terms =
        λ t. i.matching t ad.id small ∙ ap (has_in t) stands in
      elim (Bool-cases (ad.length == 0)) [
        | inl nothing ↦
            let (sets, done, readable, shown) =
              change_terms_lem bitmaps size_in_bytes codec bitmaps.checked_remove false
                (removes bitmaps size_in_bytes codec laws) ad.id [] d.terms index.set_cache
                i.sets_read in
            let (docs, deleted, view', bucket) =
              delete_lem (doc_storable codec) index.doc_cache (ad.id ∷ []) i.docs_read in
            let gone : (j : ℕ)
                → view (doc_storable codec) docs j ≡ (
                    if ad.id == j
                    then err not_found
                    else document_of bitmaps size_in_bytes codec index j) =
              λ j. view' j ∙ rw (among_one (doc_storable codec) ad.id j) refl in
            (
              record index {
                set_cache = sets;
                doc_cache = docs;
                num_docs = (index.num_docs + (2 ^ 64 - 1)) % 2 ^ 64;
              },
              rw (process_known, nothing, done, deleted) refl,
              record {
                sets_read = readable;
                docs_read = subst (λ b. IsReadable (doc_storable codec) b) (sym bucket) i.docs_read;
                matching =
                    matching_changed bitmaps size_in_bytes codec ad.id index.set_cache sets
                      index.doc_cache docs (err not_found)
                      (λ t j other. shown t j ∙ rw other (ground arith))
                      (λ t.
                        shown t ad.id ∙ rw (==_refl ad.id, occurs-nil t, before t) (ground arith))
                      gone i.matching;
              },
              λ j. gone j ∙ rw nothing refl,
              rw nothing refl,
            )
        | inr some_tokens ↦
            let (kept, removed, readable₁, shown₁) =
              change_terms_lem bitmaps size_in_bytes codec bitmaps.checked_remove false
                (removes bitmaps size_in_bytes codec laws) ad.id ad.frequencies d.terms
                index.set_cache i.sets_read in
            let (sets, done, readable, shown) =
              change_terms_lem bitmaps size_in_bytes codec bitmaps.checked_add true
                (adds bitmaps size_in_bytes codec laws) ad.id d.terms ad.frequencies kept
                readable₁ in
            let docs =
              ItemCache.put (doc_storable codec) index.doc_cache ad.id
                (stored bitmaps size_in_bytes codec ad) in
            let view' =
              put_lem (doc_storable codec) index.doc_cache ad.id
                (stored bitmaps size_in_bytes codec ad) in
            (
              record index { set_cache = sets; doc_cache = docs },
              rw (process_known, some_tokens, removed, done) refl,
              record {
                sets_read = readable;
                docs_read =
                    put_read bitmaps size_in_bytes codec laws ad.id
                      (stored bitmaps size_in_bytes codec ad) index.doc_cache i.docs_read;
                matching =
                    matching_changed bitmaps size_in_bytes codec ad.id index.set_cache sets
                      index.doc_cache docs (ok (stored bitmaps size_in_bytes codec ad))
                      (λ t j other. shown t j ∙ rw (shown₁ t j, other) (ground arith))
                      (λ t.
                        shown t ad.id ∙ rw (shown₁ t ad.id, ==_refl ad.id, before t) (ground arith))
                      view' i.matching;
              },
              λ j. view' j ∙ rw some_tokens refl,
              rw some_tokens refl,
            )
      ]

  -- Let the bitmaps keep their promises, and let an index be sound: every set can be read, every
  -- document is there or not, and a document, whose id has 64 bits, is in the set of a term just if it
  -- has the term. Then processing an analysed document with such an id succeeds and leaves a sound index, in which the document has the
  -- analysed terms and length, or is gone if it has no token, the other documents are as before, and the
  -- count is one more if the document is new, one less if it is gone, and the same otherwise, modulo 2^64.
  pub process_analysed_doc_lem :
      (ad : AnalysedDocument) (index : IndexText S)
      → ad.id < 2 ^ 64
      → IsIndexed bitmaps size_in_bytes codec index
      → Processed bitmaps size_in_bytes codec ad index
          (process_analysed_doc bitmaps size_in_bytes codec ad index)
          (counted (document_of bitmaps size_in_bytes codec index ad.id) ad.length index.num_docs)
  unfolding process_analysed_doc process_read
  process_analysed_doc_lem ad index small i =
      let (docs, got, same, bucket) = get_lem (doc_storable codec) index.doc_cache ad.id in
      elim (view-cases (doc_storable codec) index.doc_cache ad.id i.docs_read) [
        | inl absent ↦
            rw (process_analysed_doc, got, absent)
              (process_new_lem bitmaps size_in_bytes codec laws ad index small i absent)
        | inr (d, stands) ↦
            let index₁ : IndexText S = record index { doc_cache = docs } in
            let i₁ : IsIndexed bitmaps size_in_bytes codec index₁ = record {
              sets_read = i.sets_read;
              docs_read = subst (λ b. IsReadable (doc_storable codec) b) (sym bucket) i.docs_read;
              matching = λ t j tiny. i.matching t j tiny ∙ ap (has_in t) (sym (same j));
            } in
            let (index', done, sound, shown, count) =
              process_known_lem ad d index₁ small i₁ (same ad.id ∙ stands) in
            (
              index',
              rw (process_analysed_doc, got, stands) done,
              sound,
              λ j.
                  shown j
                  ∙ ap
                      (λ r.
                        if ad.id == j
                        then (if ad.length == 0
                            then err not_found
                            else ok (stored bitmaps size_in_bytes codec ad))
                        else r)
                      (same j),
              count ∙ rw stands refl,
            )
      ]
