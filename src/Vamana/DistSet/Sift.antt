-- ===== src/Vamana/DistSet/Sift.antt =====
-- The insertion of one item into a sorted list of items: the list stays sorted and has the item and
-- what it had before.
use mathlib.Core.List.{reverse, reverse-cons}
use semadb.Base.{
  All, All-append, Bool-cases, Distinct, Distinct-snoc, List, ap, arith, elem, false, inl, inr,
  length, length-append, map, refl, suc, ℕ, [], ◌++◌, ◌+◌, ◌==◌, ◌||◌, ◌∙◌, ◌∷◌, ◌≡◌, ◌≤◌,
}
use semadb.Base.Float.{IsNumber32, float32_lt, float32_lt-false, float32_lt-true, rank32}
use semadb.Vamana.DistSet.{DistSetElem, insert_last, sift}

-- every distance is a number
abbrev pub AreNumbers : List DistSetElem → Type 0
AreNumbers = All (λ e. IsNumber32 e.distance)

abbrev pub rank : DistSetElem → ℕ
rank e = rank32 e.distance

-- closest first
abbrev pub Ascending : List DistSetElem → Type 0
Ascending [] = Unit {0}
Ascending (x ∷ l) = All (λ y. rank x ≤ rank y) l × Ascending l

abbrev Descending : List DistSetElem → Type 0
Descending [] = Unit {0}
Descending (x ∷ l) = All (λ y. rank y ≤ rank x) l × Descending l

abbrev pub points : List DistSetElem → List ℕ
points = map (λ e. e.point)

pub All-reverse {κ} :
    (P : DistSetElem → Type κ) (l : List DistSetElem) → All P l → All P (reverse l)
All-reverse P [] h = tt
All-reverse P (x ∷ l) h =
    rw reverse-cons (All-append P (reverse l) (x ∷ []) (All-reverse P l h.1) (h.0, tt))

pub All-sift {κ} :
    (P : DistSetElem → Type κ) (x : DistSetElem) (l : List DistSetElem)
    → P x
    → All P l
    → All P (sift x l)
unfolding sift
All-sift P x [] hx h = (hx, tt)
All-sift P x (y ∷ l) hx h = elim (Bool-cases (float32_lt x.distance y.distance)) [
  | inl t ↦ rw t (h.0, All-sift P x l hx h.1)
  | inr f ↦ rw f (hx, h)
]

pub All-insert_last {κ} :
    (P : DistSetElem → Type κ) (l : List DistSetElem) (x : DistSetElem)
    → P x
    → All P l
    → All P (insert_last l x)
unfolding insert_last
All-insert_last P l x hx h =
    All-reverse P (sift x (reverse l)) (All-sift P x (reverse l) hx (All-reverse P l h))

le-All_trans :
    (m n : ℕ) (l : List DistSetElem) → m ≤ n → All (λ y. rank y ≤ m) l → All (λ y. rank y ≤ n) l
le-All_trans m n [] h a = tt
le-All_trans m n (y ∷ l) h a = (omega arith, le-All_trans m n l h a.1)

Descending-sift :
    (x : DistSetElem) (l : List DistSetElem)
    → IsNumber32 x.distance
    → AreNumbers l
    → Descending l
    → Descending (sift x l)
unfolding sift
Descending-sift x [] nx n d = (tt, tt)
Descending-sift x (y ∷ l) nx n d = elim (Bool-cases (float32_lt x.distance y.distance)) [
  | inl t ↦
      let below : rank x ≤ rank y = omega (arith, float32_lt-true x.distance y.distance t) in
      rw t (All-sift (λ z. rank z ≤ rank y) x l below d.0, Descending-sift x l nx n.1 d.1)
  | inr f ↦
      let above : rank y ≤ rank x = float32_lt-false x.distance y.distance nx n.0 f in
      rw f ((above, le-All_trans (rank y) (rank x) l above d.0), d)
]

Ascending-snoc :
    (l : List DistSetElem) (x : DistSetElem)
    → Ascending l
    → All (λ y. rank y ≤ rank x) l
    → Ascending (l ++ x ∷ [])
Ascending-snoc [] x a h = (tt, tt)
Ascending-snoc (y ∷ l) x a h = (All-append _ l (x ∷ []) a.0 (h.0, tt), Ascending-snoc l x a.1 h.1)

Descending-snoc :
    (l : List DistSetElem) (x : DistSetElem)
    → Descending l
    → All (λ y. rank x ≤ rank y) l
    → Descending (l ++ x ∷ [])
Descending-snoc [] x a h = (tt, tt)
Descending-snoc (y ∷ l) x a h = (All-append _ l (x ∷ []) a.0 (h.0, tt), Descending-snoc l x a.1 h.1)

Ascending-reverse : (l : List DistSetElem) → Descending l → Ascending (reverse l)
Ascending-reverse [] d = tt
Ascending-reverse (x ∷ l) d =
    rw reverse-cons (Ascending-snoc (reverse l) x (Ascending-reverse l d.1) (All-reverse _ l d.0))

Descending-reverse : (l : List DistSetElem) → Ascending l → Descending (reverse l)
Descending-reverse [] d = tt
Descending-reverse (x ∷ l) d =
    rw reverse-cons (Descending-snoc (reverse l) x (Descending-reverse l d.1) (All-reverse _ l d.0))

pub insert_last-Ascending :
    (l : List DistSetElem) (x : DistSetElem)
    → IsNumber32 x.distance
    → AreNumbers l
    → Ascending l
    → Ascending (insert_last l x)
unfolding insert_last
insert_last-Ascending l x nx n a =
    Ascending-reverse (sift x (reverse l))
      (Descending-sift x (reverse l) nx (All-reverse _ l n) (Descending-reverse l a))

length-reverse : (l : List DistSetElem) → length (reverse l) ≡ length l
length-reverse [] = refl
length-reverse (x ∷ l) = rw (reverse-cons, length-append, length-reverse l) (omega arith)

length-sift : (x : DistSetElem) (l : List DistSetElem) → length (sift x l) ≡ suc (length l)
unfolding sift
length-sift x [] = refl
length-sift x (y ∷ l) = ground (arith, length-sift x l)

pub length-insert_last :
    (l : List DistSetElem) (x : DistSetElem) → length (insert_last l x) ≡ length l + 1
unfolding insert_last
length-insert_last l x =
    rw (length-reverse (sift x (reverse l)), length-sift, length-reverse l) (omega arith)

pub elem-points-append :
    (p : ℕ) (l m : List DistSetElem)
    → elem p (points (l ++ m)) ≡ (elem p (points l) || elem p (points m))
elem-points-append p [] m = refl
elem-points-append p (x ∷ l) m = ground (arith, elem-points-append p l m)

elem-points-reverse :
    (p : ℕ) (l : List DistSetElem) → elem p (points (reverse l)) ≡ elem p (points l)
elem-points-reverse p [] = refl
elem-points-reverse p (x ∷ l) =
    rw (reverse-cons, elem-points-append, elem-points-reverse p l) (ground arith)

elem-points-sift :
    (p : ℕ) (x : DistSetElem) (l : List DistSetElem)
    → elem p (points (sift x l)) ≡ (p == x.point || elem p (points l))
unfolding sift
elem-points-sift p x [] = refl
elem-points-sift p x (y ∷ l) = ground (arith, elem-points-sift p x l)

pub elem-insert_last :
    (p : ℕ) (l : List DistSetElem) (x : DistSetElem)
    → elem p (points (insert_last l x)) ≡ (p == x.point || elem p (points l))
unfolding insert_last
elem-insert_last p l x =
    rw (elem-points-reverse p (sift x (reverse l)), elem-points-sift, elem-points-reverse p l) refl

points-append : (l m : List DistSetElem) → points (l ++ m) ≡ points l ++ points m
points-append [] m = refl
points-append (x ∷ l) m = ap (◌∷◌ x.point) (points-append l m)

Distinct-reverse : (l : List DistSetElem) → Distinct (points l) → Distinct (points (reverse l))
Distinct-reverse [] d = tt
Distinct-reverse (x ∷ l) d =
    rw (reverse-cons, points-append)
      (Distinct-snoc (points (reverse l)) x.point (Distinct-reverse l d.1)
        (elem-points-reverse x.point l ∙ d.0))

Distinct-sift :
    (x : DistSetElem) (l : List DistSetElem)
    → Distinct (points l)
    → elem x.point (points l) ≡ false
    → Distinct (points (sift x l))
unfolding sift
Distinct-sift x [] d h = (refl, tt)
Distinct-sift x (y ∷ l) d h = elim (Bool-cases (float32_lt x.distance y.distance)) [
  | inl t ↦
      rw t (ground (arith, elem-points-sift y.point x l), Distinct-sift x l d.1 (ground arith))
  | inr f ↦ rw f (h, d)
]

pub insert_last-Distinct :
    (l : List DistSetElem) (x : DistSetElem)
    → Distinct (points l)
    → elem x.point (points l) ≡ false
    → Distinct (points (insert_last l x))
unfolding insert_last
insert_last-Distinct l x d h =
    Distinct-reverse (sift x (reverse l))
      (Distinct-sift x (reverse l) (Distinct-reverse l d) (elem-points-reverse x.point l ∙ h))
