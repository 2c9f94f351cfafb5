-- ===== src/Vamana/DistSet/Init.antt =====
-- Splitting off the last item.
use semadb.Base.{
  All, Distinct, List, ap, arith, length, refl, some, suc, take, zero, ℕ, [], ◌++◌, ◌-◌, ◌<◌, ◌∷◌,
  ◌≡◌, ◌≤◌,
}
use semadb.Vamana.DistSet.{DistSetElem, but_last, last}
use semadb.Vamana.DistSet.Sift.{Ascending, elem-points-append, points, rank}

last_split_at :
    (n : ℕ) (l : List DistSetElem) (f : DistSetElem)
    → length l ≡ suc n
    → last l ≡ some f
    → l ≡ take n l ++ f ∷ []
unfolding last
last_split_at n [] f s h = cc
last_split_at zero (x ∷ []) f s h = ground arith
last_split_at zero (x ∷ y ∷ l) f s h = absurd (omega arith)
last_split_at (suc n) (x ∷ []) f s h = absurd (omega arith)
last_split_at (suc n) (x ∷ y ∷ l) f s h = ap (◌∷◌ x) (last_split_at n (y ∷ l) f (omega arith) h)

pub last_split :
    (l : List DistSetElem) (f : DistSetElem)
    → 0 < length l
    → last l ≡ some f
    → l ≡ but_last l ++ f ∷ []
unfolding but_last
last_split l f pos h = last_split_at (length l - 1) l f (omega arith) h

pub last-some : (l : List DistSetElem) → 0 < length l → (f : DistSetElem) × (last l ≡ some f)
unfolding last
last-some [] h = absurd (omega arith)
last-some (x ∷ []) h = (x, refl)
last-some (x ∷ y ∷ l) h = last-some (y ∷ l) (omega arith)

pub All-init {κ} :
    (P : DistSetElem → Type κ) (l : List DistSetElem) (f : DistSetElem)
    → All P (l ++ f ∷ [])
    → All P l × P f
All-init P [] f h = (tt, h.0)
All-init P (x ∷ l) f h = let (init, end) = All-init P l f h.1 in ((h.0, init), end)

pub Ascending-init :
    (l : List DistSetElem) (f : DistSetElem)
    → Ascending (l ++ f ∷ [])
    → Ascending l × All (λ e. rank e ≤ rank f) l
Ascending-init [] f a = (tt, tt)
Ascending-init (x ∷ l) f a =
    let (init, below) = Ascending-init l f a.1 in
    let (first, top) = All-init _ l f a.0 in ((first, init), (top, below))

pub Distinct-init :
    (l : List DistSetElem) (f : DistSetElem) → Distinct (points (l ++ f ∷ [])) → Distinct (points l)
Distinct-init [] f d = tt
Distinct-init (x ∷ l) f d =
    (ground (arith, elem-points-append x.point l (f ∷ [])), Distinct-init l f d.1)
