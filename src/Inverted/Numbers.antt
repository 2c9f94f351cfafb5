-- ===== src/Inverted/Numbers.antt =====
-- Lists of numbers as bitmaps: an example of what the indexes use of the bitmap library.
use semadb.Base.{
  Bool, Bool-cases, List, [], arith, elem, elem-append, false, if◌then◌else◌, inl, inr, not, refl,
  true, ℕ, ◌&&◌, ◌++◌, ◌==◌, ◌≡◌, ◌∷◌,
}
use semadb.Base.Result.{ok}
use semadb.Inverted.Index.{Bitmaps}
use semadb.Inverted.Index.Posted.{IsBitmaps, all_contain, any_contains}

abbrev pub Numbers : Type 0
Numbers = List ℕ

pub without : ℕ → Numbers → Numbers
without x [] = []
without x (y ∷ l) = let rest = without x l in if x == y then rest else y ∷ rest

pub is_nil : Numbers → Bool
is_nil [] = true
is_nil (x ∷ l) = false

pub joined : List Numbers → Numbers
joined [] = []
joined (l ∷ ls) = l ++ joined ls

-- the items of the one list that are in the other
pub shared : Numbers → Numbers → Numbers
shared [] m = []
shared (x ∷ l) m = let rest = shared l m in if elem x m then x ∷ rest else rest

pub met : List Numbers → Numbers
met [] = []
met (l ∷ []) = l
met (l ∷ m ∷ ls) = shared l (met (m ∷ ls))

abbrev pub numbers : Bitmaps Numbers
numbers = record {
  blank = [];
  contains = λ s x. elem x s;
  checked_add = λ s x. (not (elem x s), x ∷ s);
  checked_remove = λ s x. (elem x s, without x s);
  is_empty = is_nil;
  to_bytes = λ s. ok s;
  from_bytes = λ b. ok b;
  fast_or = joined;
  fast_and = met;
}

elem-without : (x y : ℕ) (s : Numbers) → elem y (without x s) ≡ (not (x == y) && elem y s)
unfolding without
elem-without x y [] = ground arith
elem-without x y (z ∷ s) = ground (arith, elem-without x y s)

any_joined : (l : List Numbers) (x : ℕ) → elem x (joined l) ≡ any_contains numbers x l
unfolding joined any_contains
any_joined [] x = refl
any_joined (s ∷ l) x = ground (arith, elem-append x s (joined l), any_joined l x)

elem-shared : (x : ℕ) (s m : Numbers) → elem x (shared s m) ≡ (elem x s && elem x m)
unfolding shared
elem-shared x [] m = refl
elem-shared x (y ∷ s) m = elim (Bool-cases (elem y m)) [
  | inl inside ↦ ground (arith, elem-shared x s m)
  | inr outside ↦ ground (arith, elem-shared x s m)
]

all_met :
    (s : Numbers) (l : List Numbers) (x : ℕ) → elem x (met (s ∷ l)) ≡ all_contain numbers x (s ∷ l)
unfolding met all_contain
all_met s [] x = ground arith
all_met s (m ∷ l) x = ground (arith, elem-shared x s (met (m ∷ l)), all_met m l x)

nothing_in_nil : (s : Numbers) → is_nil s ≡ true → (x : ℕ) → elem x s ≡ false
unfolding is_nil
nothing_in_nil [] h x = refl
nothing_in_nil (y ∷ s) h x = absurd (ground arith)

pub numbers-IsBitmaps : IsBitmaps numbers
numbers-IsBitmaps = record {
  blank_lem = λ x. refl;
  add_flag = λ s id. refl;
  add_set = λ s id x. ground arith;
  remove_flag = λ s id. refl;
  remove_set = λ s id x. elem-without id x s;
  is_empty_lem = nothing_in_nil;
  bytes_lem = λ s. (s, refl, s, refl, λ x. refl);
  fast_or_lem = any_joined;
  fast_and_lem = all_met;
}
