-- ===== src/Shard/IdCounter/Freed.antt =====
-- An id in use that is set free, wherever it stands among those in use.
use semadb.Base.{
  All, All-append, Bool-cases, subst, sym, Distinct, Distinct-snoc, List, [], arith, elem, false,
  if◌then◌else◌, inl, inr, length, length-append, refl, suc, true, ℕ, ◌<◌, ◌==◌, ◌∷◌, ◌≡◌, ◌≤◌,
  ==_iff,
}
use semadb.Shard.IdCounter.{IdCounter, free_id}
use semadb.Shard.IdCounter.Fresh.{IsFresh, disjoint_snoc}

-- the list without the first place of an id
abbrev pub without_id : ℕ → List ℕ → List ℕ
without_id id [] = []
without_id id (x ∷ xs) = if id == x then xs else x ∷ without_id id xs

All-without_id {κ} : (P : ℕ → Type κ) (id : ℕ) (xs : List ℕ) → All P xs → All P (without_id id xs)
All-without_id P id [] a = tt
All-without_id P id (x ∷ xs) a = elim (Bool-cases (id == x)) [
  | inl here ↦ rw here a.1
  | inr later ↦ rw later (a.0, All-without_id P id xs a.1)
]

All-elem {κ} : (P : ℕ → Type κ) (id : ℕ) (xs : List ℕ) → elem id xs ≡ true → All P xs → P id
All-elem P id [] h a = absurd (ground arith)
All-elem P id (x ∷ xs) h a = elim (Bool-cases (id == x)) [
  | inl here ↦ subst P (sym ((==_iff id x).0 here)) a.0
  | inr later ↦ All-elem P id xs (rw later at h) a.1
]

-- an item of the rest is an item
elem-without_id : (id y : ℕ) (xs : List ℕ) → elem y xs ≡ false → elem y (without_id id xs) ≡ false
elem-without_id id y [] h = refl
elem-without_id id y (x ∷ xs) h = elim (Bool-cases (id == x)) [
  | inl here ↦ rw here (ground arith)
  | inr later ↦ rw later (ground (arith, elem-without_id id y xs))
]

Distinct-without_id : (id : ℕ) (xs : List ℕ) → Distinct xs → Distinct (without_id id xs)
Distinct-without_id id [] d = tt
Distinct-without_id id (x ∷ xs) d = elim (Bool-cases (id == x)) [
  | inl here ↦ rw here d.1
  | inr later ↦ rw later (elem-without_id id x xs d.0, Distinct-without_id id xs d.1)
]

-- the id is not left over
pub gone-without_id : (id : ℕ) (xs : List ℕ) → Distinct xs → elem id (without_id id xs) ≡ false
gone-without_id id [] d = refl
gone-without_id id (x ∷ xs) d = elim (Bool-cases (id == x)) [
  | inl here ↦ rw here (ground (arith, (==_iff id x).0 here, d.0))
  | inr later ↦ rw later (ground (arith, gone-without_id id xs d.1))
]

length-without_id :
    (id : ℕ) (xs : List ℕ) → elem id xs ≡ true → suc (length (without_id id xs)) ≡ length xs
length-without_id id [] h = absurd (ground arith)
length-without_id id (x ∷ xs) h = elim (Bool-cases (id == x)) [
  | inl here ↦ rw here refl
  | inr later ↦ rw later (omega (arith, length-without_id id xs (rw later at h)))
]

pub free_id-without_id :
    (c : IdCounter) (id : ℕ) (used : List ℕ)
    → IsFresh c used
    → elem id used ≡ true
    → IsFresh (free_id c id) (without_id id used)
unfolding free_id
free_id-without_id c id used f h = record {
  free_distinct =
      Distinct-snoc c.free_ids id f.free_distinct
        (All-elem (λ i. elem i c.free_ids ≡ false) id used h f.disjoint);
  free_bounds =
      All-append _ c.free_ids (id ∷ []) f.free_bounds
        (All-elem (λ i. (2 ≤ i) × (i < c.next_free_id)) id used h f.used_bounds, tt);
  used_distinct = Distinct-without_id id used f.used_distinct;
  used_bounds = All-without_id (λ i. (2 ≤ i) × (i < c.next_free_id)) id used f.used_bounds;
  disjoint =
      disjoint_snoc c.free_ids (without_id id used) id
        (All-without_id (λ i. elem i c.free_ids ≡ false) id used f.disjoint)
        (gone-without_id id used f.used_distinct);
  counted =
      omega (arith, f.counted, length-append c.free_ids (id ∷ []), length-without_id id used h);
}
