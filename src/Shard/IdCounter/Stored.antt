-- ===== src/Shard/IdCounter/Stored.antt =====
-- A counter that is flushed is read back as it was.
use semadb.Base.{
  All, Distinct, List, arith, drop-append, false, length, none, refl, some, take-append, ℕ, [], ◌+◌,
  ◌/◌, ◌<◌, ◌^◌, ◌∙◌, ◌∷◌, ◌≡◌,
}
use semadb.Base.Result.{ok}
use semadb.Conversion.{Bytes, edge_list_to_bytes, uint64_to_bytes}
use semadb.Conversion.RoundTrip.{
  edge_list-cons, length-edge_list_to_bytes, length-uint64_to_bytes, uint64-bytes,
}
use semadb.Diskstore
use semadb.Diskstore.{MemBucket}
use semadb.Diskstore.Laws.{after_put, after_put-writable, get-after_put, put-after_put}
use semadb.Diskstore.Order.{bytes_eq, bytes_eq_refl}
use semadb.Shard.IdCounter.{
  IdCounter, flush, new_id_counter, read_free_ids, stored_free_ids, stored_next_id, to_set,
}

to_set_of_Distinct : (xs : List ℕ) → Distinct xs → to_set xs ≡ xs
unfolding to_set
to_set_of_Distinct [] d = refl
to_set_of_Distinct (x ∷ xs) d = rw (to_set_of_Distinct xs d.1, d.0) refl

read_free_ids-edge_list_to_bytes :
    (xs : List ℕ)
    → All (λ x. x < 2 ^ 64) xs
    → read_free_ids (length xs) (edge_list_to_bytes xs) ≡ ok xs
unfolding read_free_ids
read_free_ids-edge_list_to_bytes [] h = refl
read_free_ids-edge_list_to_bytes (x ∷ xs) h =
    let sized = length-uint64_to_bytes x in
    let rest = edge_list_to_bytes xs in
    rw
      (
        edge_list-cons x xs,
        take-append 8 (uint64_to_bytes x) rest sized,
        drop-append 8 (uint64_to_bytes x) rest sized,
        uint64-bytes x h.0,
        read_free_ids-edge_list_to_bytes xs h.1,
      )
      refl

stored_free_ids_lem :
    (xs : List ℕ)
    → All (λ x. x < 2 ^ 64) xs
    → Distinct xs
    → stored_free_ids (some (edge_list_to_bytes xs)) ≡ ok xs
unfolding stored_free_ids
stored_free_ids_lem xs h d =
    let rounds : (length (edge_list_to_bytes xs) + 7) / 8 ≡ length xs =
      omega (arith, length-edge_list_to_bytes xs) in
    rw (rounds, read_free_ids-edge_list_to_bytes xs h, to_set_of_Distinct xs d) refl

-- the bucket that a flush leaves
pub flushed_bucket : IdCounter → MemBucket
flushed_bucket c =
    after_put (after_put c.bucket c.next_free_id_key (uint64_to_bytes c.next_free_id))
      c.free_ids_key (edge_list_to_bytes c.free_ids)

module _ (c : IdCounter) where
  pub flush-flushed_bucket :
      c.bucket.is_read_only ≡ false → flush c ≡ ok (record c { bucket = flushed_bucket c })
  unfolding flush flushed_bucket
  flush-flushed_bucket w =
      let first = after_put c.bucket c.next_free_id_key (uint64_to_bytes c.next_free_id) in
      let first_writable : first.is_read_only ≡ false =
        after_put-writable c.bucket c.next_free_id_key (uint64_to_bytes c.next_free_id) ∙ w in
      rw (put-after_put c.bucket _ _ w, put-after_put first _ _ first_writable) refl

  pub flushed_bucket-writable : (flushed_bucket c).is_read_only ≡ c.bucket.is_read_only
  unfolding flushed_bucket
  flushed_bucket-writable = after_put-writable _ _ _ ∙ after_put-writable _ _ _

  pub get-flushed_bucket :
      (k : Bytes)
      → bytes_eq c.free_ids_key k ≡ false
      → bytes_eq c.next_free_id_key k ≡ false
      → Diskstore.get (flushed_bucket c) k ≡ Diskstore.get c.bucket k
  unfolding flushed_bucket
  get-flushed_bucket k h j = rw (get-after_put, h, get-after_put, j) refl

  pub new_id_counter-flushed_bucket :
      bytes_eq c.free_ids_key c.next_free_id_key ≡ false
      → c.next_free_id < 2 ^ 64
      → All (λ i. i < 2 ^ 64) c.free_ids
      → Distinct c.free_ids
      → new_id_counter (flushed_bucket c) c.free_ids_key c.next_free_id_key
        ≡ ok (record c { bucket = flushed_bucket c })
  unfolding new_id_counter stored_next_id flushed_bucket
  new_id_counter-flushed_bucket differ fits free_fit d =
      let free_read : Diskstore.get (flushed_bucket c) c.free_ids_key
          ≡ some (edge_list_to_bytes c.free_ids) =
        rw (get-after_put, bytes_eq_refl) refl in
      let next_read : Diskstore.get (flushed_bucket c) c.next_free_id_key
          ≡ some (uint64_to_bytes c.next_free_id) =
        rw (get-after_put, differ, get-after_put, bytes_eq_refl) refl in
      rw
        (
          free_read,
          next_read,
          stored_free_ids_lem c.free_ids free_fit d,
          uint64-bytes c.next_free_id fits,
        )
        refl

-- A flush writes the counter to its bucket, where a new counter reads the same free ids and the same
-- next id. (The bucket is writable, the two keys differ, the ids fit in 64 bits and none is free
-- twice.)
pub new_id_counter-flush :
    (c : IdCounter)
    → c.bucket.is_read_only ≡ false
    → bytes_eq c.free_ids_key c.next_free_id_key ≡ false
    → c.next_free_id < 2 ^ 64
    → All (λ i. i < 2 ^ 64) c.free_ids
    → Distinct c.free_ids
    → (c' : IdCounter) × (flush c ≡ ok c')
      × (c'.free_ids ≡ c.free_ids)
      × (c'.next_free_id ≡ c.next_free_id)
      × (new_id_counter c'.bucket c.free_ids_key c.next_free_id_key ≡ ok c')
new_id_counter-flush c w differ fits free_fit d = (
  record c { bucket = flushed_bucket c },
  flush-flushed_bucket c w,
  refl,
  refl,
  new_id_counter-flushed_bucket c differ fits free_fit d,
)

-- the counter of a bucket that has none yet
pub new_id_counter-blank :
    (b : MemBucket) (fk nk : Bytes)
    → Diskstore.get b fk ≡ none
    → Diskstore.get b nk ≡ none
    → new_id_counter b fk nk
      ≡ ok (record {
        bucket = b;
        free_ids_key = fk;
        next_free_id_key = nk;
        free_ids = [];
        next_free_id = 2;
      })
unfolding new_id_counter stored_free_ids stored_next_id
new_id_counter-blank b fk nk free next = rw (free, next) refl
