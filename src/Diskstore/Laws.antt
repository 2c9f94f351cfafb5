-- ===== src/Diskstore/Laws.antt =====
-- The bucket as a map: what is read after a write, and the writes that a read-only bucket refuses.
use semadb.Base.{arith, ◌⊎◌, Bool, false, none, refl, some, if◌then◌else◌, ◌≡◌}
use semadb.Base.Assoc.{
  UniqueKeys, insert, insert-UniqueKeys, lookup, lookup-insert, lookup-remove, remove,
  remove-UniqueKeys,
}
use semadb.Base.Result.{err, ok, read_only}
use semadb.Conversion.{Bytes}
use semadb.Diskstore.{MemBucket, delete, get, new_mem_bucket, put}
use semadb.Diskstore.Order.{bytes_eq, bytes_key}

-- A bucket is a map: no key stands twice.
abbrev pub IsMap : MemBucket → Type 0
IsMap b = UniqueKeys b.entries

pub new_mem_bucket-IsMap : (flag : Bool) → IsMap (new_mem_bucket flag)
unfolding new_mem_bucket
new_mem_bucket-IsMap flag = tt

pub get-new_mem_bucket : (flag : Bool) (k : Bytes) → get (new_mem_bucket flag) k ≡ none
unfolding get new_mem_bucket lookup
get-new_mem_bucket flag k = refl

pub new_mem_bucket-writable : (new_mem_bucket false).is_read_only ≡ false
unfolding new_mem_bucket
new_mem_bucket-writable = refl

-- the bucket that a successful put leaves
pub after_put : MemBucket → Bytes → Bytes → MemBucket
after_put b k v = record b { entries = insert k v b.entries }

-- the bucket that a successful delete leaves
pub after_delete : MemBucket → Bytes → MemBucket
after_delete b k = record b { entries = remove k b.entries }

module _ (b : MemBucket) (k : Bytes) where
  pub put-after_put : (v : Bytes) → b.is_read_only ≡ false → put b k v ≡ ok (after_put b k v)
  unfolding put after_put
  put-after_put v w = rw w

  pub put-cases : (v : Bytes) → (put b k v ≡ err read_only) ⊎ (put b k v ≡ ok (after_put b k v))
  unfolding put after_put
  put-cases v = ground arith

  pub get-after_put :
      (v j : Bytes) → get (after_put b k v) j ≡ (if bytes_eq k j then some v else get b j)
  unfolding get after_put
  get-after_put v j = lookup-insert k j v b.entries

  pub after_put-entries : (v : Bytes) → (after_put b k v).entries ≡ insert k v b.entries
  unfolding after_put
  after_put-entries v = refl

  pub after_put-writable : (v : Bytes) → (after_put b k v).is_read_only ≡ b.is_read_only
  unfolding after_put
  after_put-writable v = refl

  pub after_put-IsMap : (v : Bytes) → IsMap b → IsMap (after_put b k v)
  unfolding after_put
  after_put-IsMap v = insert-UniqueKeys k v b.entries

  pub delete-after_delete : b.is_read_only ≡ false → delete b k ≡ ok (after_delete b k)
  unfolding delete after_delete
  delete-after_delete w = rw w

  pub get-after_delete :
      (j : Bytes) → get (after_delete b k) j ≡ (if bytes_eq k j then none else get b j)
  unfolding get after_delete
  get-after_delete j = lookup-remove k j b.entries

  pub after_delete-writable : (after_delete b k).is_read_only ≡ b.is_read_only
  unfolding after_delete
  after_delete-writable = refl

  pub after_delete-IsMap : IsMap b → IsMap (after_delete b k)
  unfolding after_delete
  after_delete-IsMap = remove-UniqueKeys k b.entries

-- On a bucket whose keys are unique, a put and a delete are refused if the bucket is read-only and
-- succeed if it is not; the key then has the new value, or none, every other key has the value that
-- it had, and the keys are still unique.
pub put_delete_lem :
    (b : MemBucket) (k v : Bytes)
    → IsMap b
    → (put b k v ≡ (if b.is_read_only then err read_only else ok (after_put b k v)))
      × (delete b k ≡ (if b.is_read_only then err read_only else ok (after_delete b k)))
      × ((j : Bytes) → get (after_put b k v) j ≡ (if bytes_eq k j then some v else get b j))
      × ((j : Bytes) → get (after_delete b k) j ≡ (if bytes_eq k j then none else get b j))
      × IsMap (after_put b k v)
      × IsMap (after_delete b k)
unfolding put delete after_put after_delete
put_delete_lem b k v m = (
  refl,
  refl,
  λ j. get-after_put b k v j,
  λ j. get-after_delete b k j,
  after_put-IsMap b k v m,
  after_delete-IsMap b k m,
)
