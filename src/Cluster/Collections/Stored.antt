-- ===== src/Cluster/Collections/Stored.antt =====
-- What the scan for the quota counts, and that a new collection adds one to it.
use semadb.Base.{
  ap, Bool, Bool-cases, [], arith, inl, inr, length, none, refl, suc, true, ℕ, ◌+◌, ◌≡◌, ◌∷◌, ◌∙◌,
}
use semadb.Base.Assoc.{insert, lookup}
use semadb.Base.Result.{ok}
use semadb.Cluster.Collections.{collection_key, count_key, user_prefix}
use semadb.Conversion.{Bytes}
use semadb.Diskstore.{MemBucket, Pairs, prefix_scan, visit}
use semadb.Diskstore.Order.{bytes_eq, bytes_key}
use semadb.Diskstore.Scan.{prefix_scan_exact, select, starts_with}

-- the entries of a bucket under the prefix of a user
abbrev pub entries_of : Bytes → MemBucket → Pairs
entries_of user_id b = select (starts_with (user_prefix user_id)) b.entries

pub key_of_user :
    (user_id id : Bytes) → starts_with (user_prefix user_id) (collection_key user_id id) ≡ true
unfolding starts_with
key_of_user [] id = ground arith
key_of_user (c ∷ user_id) id = ground (arith, key_of_user user_id id)

visit_count : (m : Pairs) (n : ℕ) → visit count_key m n ≡ ok (n + length m)
unfolding visit count_key
visit_count [] n = ground arith
visit_count ((k, v) ∷ m) n = rw (visit_count m (n + 1)) (ground arith)

pub scan_count :
    (b : MemBucket) (user_id : Bytes)
    → prefix_scan count_key b (user_prefix user_id) 0 ≡ ok (length (entries_of user_id b))
scan_count b user_id =
    prefix_scan_exact count_key b (user_prefix user_id) 0
    ∙ visit_count (entries_of user_id b) 0
    ∙ ap ok (omega arith)

pub length-select_new :
    (p : Bytes → Bool) (k v : Bytes) (m : Pairs)
    → p k ≡ true
    → lookup k m ≡ none
    → length (select p (insert k v m)) ≡ suc (length (select p m))
unfolding select insert lookup
length-select_new p k v [] passes fresh = rw passes refl
length-select_new p k v ((j, w) ∷ m) passes fresh = elim (Bool-cases (bytes_eq j k)) [
  | inl same ↦ absurd (ground arith)
  | inr differ ↦ ground (arith, length-select_new p k v m passes)
]
