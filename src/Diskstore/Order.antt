-- ===== src/Diskstore/Order.antt =====
-- The order of keys: `bytes.Compare`, which is `cmp.Compare` on strings, and the sort by key.
use semadb.Base.{
  Bool, Bool-cases, List, arith, false, inl, inr, ltb, none, refl, some, true, [], ◌&&◌, ◌==◌,
  if◌then◌else◌, ◌↔◌, ◌∙◌, ◌∷◌, ◌≡◌,
}
use semadb.Base.Assoc.{Eq, UniqueKeys, lookup}
use semadb.Conversion.{Bytes}

abbrev pub bytes_eq : Bytes → Bytes → Bool
bytes_eq [] [] = true
bytes_eq (x ∷ xs) (y ∷ ys) = x == y && bytes_eq xs ys
bytes_eq _ _ = false

pub bytes_eq_iff : (a b : Bytes) → (bytes_eq a b ≡ true) ↔ (a ≡ b)
bytes_eq_iff [] [] = ground arith
bytes_eq_iff (x ∷ xs) (y ∷ ys) = ground (arith, bytes_eq_iff xs ys)
bytes_eq_iff [] (y ∷ ys) = ground arith
bytes_eq_iff (x ∷ xs) [] = ground arith

pub bytes_eq_refl : (a : Bytes) → bytes_eq a a ≡ true
bytes_eq_refl a = (bytes_eq_iff a a).1 refl

pub bytes_eq_comm : (a b : Bytes) → bytes_eq a b ≡ bytes_eq b a
bytes_eq_comm [] [] = refl
bytes_eq_comm (x ∷ xs) (y ∷ ys) = ground (arith, bytes_eq_comm xs ys)
bytes_eq_comm [] (y ∷ ys) = refl
bytes_eq_comm (x ∷ xs) [] = refl

instance abbrev pub bytes_key : Eq Bytes
bytes_key = record { beq = bytes_eq; beq_iff = bytes_eq_iff }

-- `bytes.Compare(a, b) < 0`: the first byte that differs decides, and a prefix comes first
unfoldable pub bytes_lt : Bytes → Bytes → Bool
bytes_lt a [] = false
bytes_lt [] (y ∷ ys) = true
bytes_lt (x ∷ xs) (y ∷ ys) = if x == y then bytes_lt xs ys else ltb x y

pub bytes_lt_irrefl : (a : Bytes) → bytes_lt a a ≡ false
unfolding bytes_lt
bytes_lt_irrefl [] = refl
bytes_lt_irrefl (x ∷ xs) = ground (arith, bytes_lt_irrefl xs)

pub bytes_lt_trans :
    (a b c : Bytes) → bytes_lt a b ≡ true → bytes_lt b c ≡ true → bytes_lt a c ≡ true
unfolding bytes_lt
bytes_lt_trans a b [] h k = ground arith
bytes_lt_trans a [] (z ∷ zs) h k = ground arith
bytes_lt_trans [] (y ∷ ys) (z ∷ zs) h k = refl
bytes_lt_trans (x ∷ xs) (y ∷ ys) (z ∷ zs) h k = ground (arith, bytes_lt_trans xs ys zs)

-- of two keys that are not in order, either they are equal or they stand the other way round
pub bytes_lt_total :
    (a b : Bytes) → bytes_lt a b ≡ false → bytes_eq a b ≡ false → bytes_lt b a ≡ true
unfolding bytes_lt
bytes_lt_total [] [] h k = ground arith
bytes_lt_total [] (y ∷ ys) h k = ground arith
bytes_lt_total (x ∷ xs) [] h k = refl
bytes_lt_total (x ∷ xs) (y ∷ ys) h k = ground (arith, bytes_lt_total xs ys)

module _ {V : Type 0} where
  -- every key of the map is above `k`
  abbrev pub AllAbove : Bytes → List (Bytes × V) → Type 0
  AllAbove k [] = Unit {0}
  AllAbove k ((j, v) ∷ m) = (bytes_lt k j ≡ true) × AllAbove k m

  -- strictly ascending keys
  abbrev pub Ascending : List (Bytes × V) → Type 0
  Ascending [] = Unit {0}
  Ascending ((k, v) ∷ m) = AllAbove k m × Ascending m

  place : Bytes → V → List (Bytes × V) → List (Bytes × V)
  place k v [] = (k, v) ∷ []
  place k v ((j, w) ∷ m) = if bytes_lt j k then (j, w) ∷ place k v m else (k, v) ∷ (j, w) ∷ m

  -- `slices.SortFunc` by the key
  unfoldable pub sort_pairs : List (Bytes × V) → List (Bytes × V)
  unfolding place
  sort_pairs [] = []
  sort_pairs ((k, v) ∷ m) = place k v (sort_pairs m)

  AllAbove-trans :
      (j k : Bytes) (m : List (Bytes × V)) → bytes_lt j k ≡ true → AllAbove k m → AllAbove j m
  AllAbove-trans j k [] h a = tt
  AllAbove-trans j k ((i, v) ∷ m) h a = (bytes_lt_trans j k i h a.0, AllAbove-trans j k m h a.1)

  AllAbove-place :
      (j k : Bytes) (v : V) (m : List (Bytes × V))
      → bytes_lt j k ≡ true
      → AllAbove j m
      → AllAbove j (place k v m)
  unfolding place
  AllAbove-place j k v [] h a = (h, tt)
  AllAbove-place j k v ((i, w) ∷ m) h a = elim (Bool-cases (bytes_lt i k)) [
    | inl t ↦ rw t (a.0, AllAbove-place j k v m h a.1)
    | inr f ↦ rw f (h, a)
  ]

  Ascending-place :
      (k : Bytes) (v : V) (m : List (Bytes × V))
      → lookup k m ≡ none
      → Ascending m
      → Ascending (place k v m)
  unfolding place lookup
  Ascending-place k v [] h a = (tt, tt)
  Ascending-place k v ((j, w) ∷ m) h a = elim (Bool-cases (bytes_lt j k)) [
    | inl t ↦ rw t (AllAbove-place j k v m t a.0, Ascending-place k v m (ground arith) a.1)
    | inr f ↦
        let below : bytes_lt k j ≡ true = bytes_lt_total j k f (ground arith) in
        rw f ((below, AllAbove-trans k j m below a.0), a)
  ]

  lookup-place :
      (k j : Bytes) (v : V) (m : List (Bytes × V))
      → lookup k m ≡ none
      → lookup j (place k v m) ≡ (if bytes_eq k j then some v else lookup j m)
  unfolding place lookup
  lookup-place k j v [] h = refl
  lookup-place k j v ((i, w) ∷ m) h =
      ground (arith, lookup-place k j v m, bytes_eq_iff k j, bytes_eq_iff i j, bytes_eq_iff i k)

  -- sorting loses and invents no entry
  pub lookup-sort_pairs :
      (j : Bytes) (m : List (Bytes × V)) → UniqueKeys m → lookup j (sort_pairs m) ≡ lookup j m
  unfolding sort_pairs lookup
  lookup-sort_pairs j [] u = refl
  lookup-sort_pairs j ((k, v) ∷ m) u =
      let absent : lookup k (sort_pairs m) ≡ none = lookup-sort_pairs k m u.1 ∙ u.0 in
      rw (lookup-place k j v (sort_pairs m) absent, lookup-sort_pairs j m u.1) refl

  pub sort_pairs-Ascending : (m : List (Bytes × V)) → UniqueKeys m → Ascending (sort_pairs m)
  unfolding sort_pairs
  sort_pairs-Ascending [] u = tt
  sort_pairs-Ascending ((k, v) ∷ m) u =
      Ascending-place k v (sort_pairs m) (lookup-sort_pairs k m u.1 ∙ u.0)
        (sort_pairs-Ascending m u.1)
