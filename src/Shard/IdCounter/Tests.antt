-- ===== src/Shard/IdCounter/Tests.antt =====
-- Runs of the id counter, and its theorems at a small counter.
use semadb.Base.{arith, elem, false, refl, [], ◌∷◌, ◌≡◌, ◌≤◌}
use semadb.Base.Result.{ok}
use semadb.Diskstore.{new_mem_bucket}
use semadb.Diskstore.Laws.{get-new_mem_bucket}
use semadb.Shard.IdCounter.{
  IdCounter, decrement, flush, free_id, max_id, new_id_counter, next_id, stored_free_ids,
  stored_next_id,
}
use semadb.Shard.IdCounter.Fresh.{IsFresh, free_id-IsFresh, next_id-IsFresh}
use semadb.Shard.IdCounter.Stored.{new_id_counter-flush}

-- 2, 3 and 4 were handed out and 3 was set free
abbrev small : IdCounter
small = record {
  bucket = record { entries = []; is_read_only = false };
  free_ids_key = b'f' ∷ [];
  next_free_id_key = b'n' ∷ [];
  free_ids = 3 ∷ [];
  next_free_id = 5;
}

-- the counter of an empty bucket starts at 2
first_counter :
    new_id_counter (new_mem_bucket false) (b'f' ∷ []) (b'n' ∷ [])
    ≡ ok (record small { bucket = new_mem_bucket false; free_ids = []; next_free_id = 2 })
unfolding new_id_counter stored_free_ids stored_next_id
first_counter = rw (get-new_mem_bucket false (b'f' ∷ []), get-new_mem_bucket false (b'n' ∷ [])) refl

second_id : (next_id (next_id small).1).0 ≡ 5
unfolding next_id decrement
second_id = refl

small-IsFresh : IsFresh small (2 ∷ 4 ∷ [])
small-IsFresh = record {
  free_distinct = (refl, tt);
  free_bounds = ((omega arith, omega arith), tt);
  used_distinct = (refl, (refl, tt));
  used_bounds = ((omega arith, omega arith), ((omega arith, omega arith), tt));
  disjoint = (refl, (refl, tt));
  counted = refl;
}

next_id-IsFresh_example :
    (elem (next_id small).0 (2 ∷ 4 ∷ []) ≡ false)
    × (2 ≤ (next_id small).0)
    × ((next_id small).0 ≤ 5)
    × IsFresh (next_id small).1 ((next_id small).0 ∷ 2 ∷ 4 ∷ [])
next_id-IsFresh_example = next_id-IsFresh small (2 ∷ 4 ∷ []) small-IsFresh (omega arith)

free_id-IsFresh_example :
    IsFresh (free_id small 2) (4 ∷ []) × (max_id (free_id small 2) ≡ max_id small)
free_id-IsFresh_example = free_id-IsFresh small 2 (4 ∷ []) small-IsFresh

new_id_counter-flush_example :
    (c' : IdCounter) × (flush small ≡ ok c')
    × (c'.free_ids ≡ 3 ∷ [])
    × (c'.next_free_id ≡ 5)
    × (new_id_counter c'.bucket (b'f' ∷ []) (b'n' ∷ []) ≡ ok c')
new_id_counter-flush_example =
    new_id_counter-flush small refl refl (omega arith) (omega arith, tt) (refl, tt)
