-- ===== src/Shard/IdCounter.antt =====
-- shard/idcounter.go: the counter that hands out node ids, reuses freed ones and is stored in a
-- bucket. A uint64 is a number below 2 ^ 64 and wraps around. The set of stored free ids is iterated
-- in the order in which it was stored (Go leaves the order open, and nothing depends on it).
pub mod Fresh
pub mod Freed
pub mod Stored
mod Tests
use semadb.Base.{
  List, Option, drop, elem, length, none, some, suc, take, zero, ℕ, [], ◌%◌, ◌++◌, ◌+◌, ◌-◌, ◌/◌,
  ◌^◌, if◌then◌else◌, ◌∷◌,
}
use semadb.Base.Result.{Result, ok, or_panic, ◌>>=◌}
use semadb.Conversion.{Bytes, bytes_to_uint64, edge_list_to_bytes, uint64_to_bytes}
use semadb.Diskstore
use semadb.Diskstore.{MemBucket}

pub record IdCounter : Type 0 where
  pub bucket : MemBucket
  pub free_ids_key : Bytes
  pub next_free_id_key : Bytes
  pub free_ids : List ℕ
  pub next_free_id : ℕ

-- the loop over the stored ids, eight bytes at a time
read_free_ids : ℕ → Bytes → Result (List ℕ)
read_free_ids zero b = ok []
read_free_ids (suc k) b = do
  free_id ← or_panic (bytes_to_uint64 (take 8 b))
  rest ← read_free_ids k (drop 8 b)
  ok (free_id ∷ rest)

-- `freeIdsMap`: the ids without repetition, in an order that Go leaves open
to_set : List ℕ → List ℕ
to_set [] = []
to_set (x ∷ xs) = let rest = to_set xs in if elem x rest then rest else x ∷ rest

stored_free_ids : Option Bytes → Result (List ℕ)
stored_free_ids none = ok []
stored_free_ids (some b) = do ids ← read_free_ids ((length b + 7) / 8) b; ok (to_set ids)

-- 0 stands for nil and 1 is the start node
stored_next_id : Option Bytes → Result ℕ
stored_next_id none = ok 2
stored_next_id (some b) = or_panic (bytes_to_uint64 b)

pub new_id_counter : MemBucket → Bytes → Bytes → Result IdCounter
new_id_counter bucket free_key next_key = do
  free ← stored_free_ids (Diskstore.get bucket free_key)
  next ← stored_next_id (Diskstore.get bucket next_key)
  ok (record {
    bucket = bucket;
    free_ids_key = free_key;
    next_free_id_key = next_key;
    free_ids = free;
    next_free_id = next;
  })

-- `x - 1` on uint64
pub decrement : ℕ → ℕ
decrement x = (x + 2 ^ 64 - 1) % 2 ^ 64

pub max_id : IdCounter → ℕ
max_id c = decrement c.next_free_id

-- the id, and the counter that is left
pub next_id : IdCounter → ℕ × IdCounter
next_id c = elim c.free_ids [
  | [] ↦
      let next = (c.next_free_id + 1) % 2 ^ 64 in (decrement next, record c { next_free_id = next })
  | id ∷ rest ↦ (id, record c { free_ids = rest })
]

unfoldable pub free_id : IdCounter → ℕ → IdCounter
free_id c id = record c { free_ids = c.free_ids ++ id ∷ [] }

pub flush : IdCounter → Result IdCounter
flush c = do
  b ← Diskstore.put c.bucket c.next_free_id_key (uint64_to_bytes c.next_free_id)
  b' ← Diskstore.put b c.free_ids_key (edge_list_to_bytes c.free_ids)
  ok (record c { bucket = b' })
