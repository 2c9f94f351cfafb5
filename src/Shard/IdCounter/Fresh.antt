-- ===== src/Shard/IdCounter/Fresh.antt =====
-- The ids that are handed out are not in use, and they stay as small as the number of ids in use
-- allows.
use semadb.Base.{
  All, All-append, Distinct, Distinct-snoc, List, arith, elem, elem-append, false, length,
  length-append, refl, ℕ, [], ◌%◌, ◌++◌, ◌+◌, ◌-◌, ◌<◌, ◌==◌, ◌^◌, if◌then◌else◌, ◌∷◌, ◌≡◌, ◌≤◌,
}
use semadb.Conversion.{Bytes}
use semadb.Diskstore.{MemBucket}
use semadb.Shard.IdCounter.{IdCounter, decrement, free_id, max_id, next_id}

-- Against the list of the ids in use: the ids from 2 up to the counter are the free ones and those in
-- use, each once.
pub record IsFresh (c : IdCounter) (used : List ℕ) : Type 0 where
  pub free_distinct : Distinct c.free_ids
  pub free_bounds : All (λ i. (2 ≤ i) × (i < c.next_free_id)) c.free_ids
  pub used_distinct : Distinct used
  pub used_bounds : All (λ i. (2 ≤ i) × (i < c.next_free_id)) used
  pub disjoint : All (λ i. elem i c.free_ids ≡ false) used
  pub counted : c.next_free_id ≡ 2 + length c.free_ids + length used

weaken :
    (n : ℕ) (xs : List ℕ) → All (λ i. (2 ≤ i) × (i < n)) xs → All (λ i. (2 ≤ i) × (i < n + 1)) xs
weaken n [] h = tt
weaken n (x ∷ xs) h = ((h.0.0, omega arith), weaken n xs h.1)

not-elem_of_bounds : (n : ℕ) (xs : List ℕ) → All (λ i. (2 ≤ i) × (i < n)) xs → elem n xs ≡ false
not-elem_of_bounds n [] h = refl
not-elem_of_bounds n (x ∷ xs) h = ground (arith, not-elem_of_bounds n xs h.1)

-- an id that is not in `xs`, all of whose items avoid `ys`, when it is the head of `ys`
split_disjoint :
    (id : ℕ) (rest used : List ℕ)
    → All (λ i. elem i (id ∷ rest) ≡ false) used
    → (elem id used ≡ false) × All (λ i. elem i rest ≡ false) used
split_disjoint id rest [] h = (refl, tt)
split_disjoint id rest (x ∷ used) h =
    let (apart, others) = split_disjoint id rest used h.1 in (ground arith, (ground arith, others))

abbrev counter : MemBucket → Bytes → Bytes → List ℕ → ℕ → IdCounter
counter b fk nk free next = record {
  bucket = b;
  free_ids_key = fk;
  next_free_id_key = nk;
  free_ids = free;
  next_free_id = next;
}

-- what a call of `next_id` gives: the id, and the counter that is left
abbrev HandsOut : IdCounter → List ℕ → ℕ × IdCounter → Type 0
HandsOut c used (id, c') =
    (elem id used ≡ false)
    × (2 ≤ id)
    × (id ≤ length c.free_ids + length used + 2)
    × IsFresh c' (id ∷ used)

next_cases :
    (b : MemBucket) (fk nk : Bytes) (free : List ℕ) (next : ℕ) (used : List ℕ)
    → IsFresh (counter b fk nk free next) used
    → next + 1 < 2 ^ 64
    → HandsOut (counter b fk nk free next) used (next_id (counter b fk nk free next))
unfolding next_id decrement
next_cases b fk nk [] next used f h =
    let step : (next + 1) % 2 ^ 64 ≡ next + 1 = omega arith in
    let back : (next + 1 + 2 ^ 64 - 1) % 2 ^ 64 ≡ next = omega arith in
    rw (step, back)
      (
        not-elem_of_bounds next used f.used_bounds,
        omega arith,
        omega arith,
        record {
          free_distinct = tt;
          free_bounds = tt;
          used_distinct = (not-elem_of_bounds next used f.used_bounds, f.used_distinct);
          used_bounds = ((omega arith, omega arith), weaken next used f.used_bounds);
          disjoint = (refl, f.disjoint);
          counted = omega arith;
        },
      )
next_cases b fk nk (id ∷ rest) next used f h =
    let (apart, others) = split_disjoint id rest used f.disjoint in
    (
      apart,
      omega arith,
      omega arith,
      record {
        free_distinct = f.free_distinct.1;
        free_bounds = f.free_bounds.1;
        used_distinct = (apart, f.used_distinct);
        used_bounds = (f.free_bounds.0, f.used_bounds);
        disjoint = (f.free_distinct.0, others);
        counted = omega arith;
      },
    )

-- From a counter whose free ids and used ids are together the ids from 2 up to the counter, each
-- once, and whose counter can still be raised within 64 bits, the next id is not in use, is neither
-- 0 nor the start node, and is at most two above the number of free and used ids; with that id in
-- use too, the counter is as before.
pub next_id-IsFresh :
    (c : IdCounter) (used : List ℕ)
    → IsFresh c used
    → c.next_free_id + 1 < 2 ^ 64
    → (elem (next_id c).0 used ≡ false)
      × (2 ≤ (next_id c).0)
      × ((next_id c).0 ≤ length c.free_ids + length used + 2)
      × IsFresh (next_id c).1 ((next_id c).0 ∷ used)
next_id-IsFresh c used f h =
    next_cases c.bucket c.free_ids_key c.next_free_id_key c.free_ids c.next_free_id used f h

-- the counter is raised by one at most, and its keys stay
pub next_id-next :
    (c : IdCounter)
    → ((next_id c).1.next_free_id ≤ c.next_free_id + 1)
      × ((next_id c).1.free_ids_key ≡ c.free_ids_key)
      × ((next_id c).1.next_free_id_key ≡ c.next_free_id_key)
unfolding next_id
next_id-next c = go c.bucket c.free_ids_key c.next_free_id_key c.free_ids c.next_free_id
  where
    go :
        (b : MemBucket) (fk nk : Bytes) (free : List ℕ) (next : ℕ)
        → ((next_id (counter b fk nk free next)).1.next_free_id ≤ next + 1)
          × ((next_id (counter b fk nk free next)).1.free_ids_key ≡ fk)
          × ((next_id (counter b fk nk free next)).1.next_free_id_key ≡ nk)
    go b fk nk [] next = (omega arith, refl, refl)
    go b fk nk (id ∷ rest) next = (omega arith, refl, refl)

pub disjoint_snoc :
    (free used : List ℕ) (id : ℕ)
    → All (λ i. elem i free ≡ false) used
    → elem id used ≡ false
    → All (λ i. elem i (free ++ id ∷ []) ≡ false) used
disjoint_snoc free [] id h a = tt
disjoint_snoc free (x ∷ used) id h a =
    (ground (arith, elem-append x free (id ∷ [])), disjoint_snoc free used id h.1 (ground arith))

-- When an id in use is set free, the counter again holds the free ids and the others in use, each
-- once, and the largest id that it may have handed out does not change.
pub free_id-IsFresh :
    (c : IdCounter) (id : ℕ) (used : List ℕ)
    → IsFresh c (id ∷ used)
    → IsFresh (free_id c id) used × (max_id (free_id c id) ≡ max_id c)
unfolding free_id max_id
free_id-IsFresh c id used f = (
  record {
    free_distinct = Distinct-snoc c.free_ids id f.free_distinct f.disjoint.0;
    free_bounds = All-append _ c.free_ids (id ∷ []) f.free_bounds (f.used_bounds.0, tt);
    used_distinct = f.used_distinct.1;
    used_bounds = f.used_bounds.1;
    disjoint = disjoint_snoc c.free_ids used id f.disjoint.1 f.used_distinct.0;
    counted = omega (arith, length-append c.free_ids (id ∷ []));
  },
  refl,
)

-- The largest id that a counter may have handed out grows by one with the next id if no id is free,
-- and stays if one is. (For a counter that accounts for the ids in use and can still be raised.)
pub next_id-max_id :
    (c : IdCounter) (used : List ℕ)
    → IsFresh c used
    → c.next_free_id + 1 < 2 ^ 64
    → max_id (next_id c).1 ≡ (if 0 == length c.free_ids then max_id c + 1 else max_id c)
unfolding next_id max_id decrement
next_id-max_id c used f h = ground arith
