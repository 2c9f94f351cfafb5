-- ===== src/Base/Member.antt =====
-- Membership of a number in a list, as the program tests it (a Go set `map[uint64]struct{}` is a
-- list that is only asked for membership), and lists with no repetition.
use Prim.Native.Nat.{ℕ}
use mathlib.Core.Path.{refl, ◌≡◌}
use mathlib.Core.Bool.{Bool, false, ◌||◌}
use mathlib.Core.List.{List, [], ◌++◌, ◌∷◌}
use native.Mathlib.Omega.{arith}
use semadb.Base.Checks.{◌==◌}

abbrev pub elem : ℕ → List ℕ → Bool
elem a [] = false
elem a (x ∷ xs) = a == x || elem a xs

-- no number stands twice
abbrev pub Distinct : List ℕ → Type 0
Distinct [] = Unit {0}
Distinct (x ∷ xs) = (elem x xs ≡ false) × Distinct xs

pub elem-append : (a : ℕ) (xs ys : List ℕ) → elem a (xs ++ ys) ≡ (elem a xs || elem a ys)
elem-append a [] ys = refl
elem-append a (x ∷ xs) ys = ground (arith, elem-append a xs ys)

pub Distinct-snoc :
    (xs : List ℕ) (y : ℕ) → Distinct xs → elem y xs ≡ false → Distinct (xs ++ y ∷ [])
Distinct-snoc [] y d h = (refl, tt)
Distinct-snoc (x ∷ xs) y d h =
    (ground (arith, elem-append x xs (y ∷ [])), Distinct-snoc xs y d.1 (ground arith))
