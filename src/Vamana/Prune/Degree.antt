-- ===== src/Vamana/Prune/Degree.antt =====
-- The edges that pruning leaves: how many, to which points, and each once.
use semadb.Base.{
  All, Bool-cases, Distinct, Distinct-snoc, List, arith, elem, elem-append, false, inl, inr, leb,
  length, length-append, not, refl, suc, sym, true, zero, ℕ, ==_iff, [], ◌++◌, ◌<◌, ◌==◌, ◌||◌, ◌∷◌,
  ◌≡◌, ◌≤◌,
}
use semadb.Vamana.DistSet.{DistSet, DistSetElem}
use semadb.Vamana.DistSet.Sift.{points}
use semadb.Vamana.Prune.{add_neighbour, mark, prune_loop, robust_prune}

module _ (distance_from : ℕ → ℕ → ℕ) (multiply : ℕ → ℕ → ℕ) (alpha degree_bound : ℕ) where
  pub points-mark :
      (c : ℕ) (l : List DistSetElem)
      → points (mark distance_from multiply alpha degree_bound c l) ≡ points l
  unfolding mark
  points-mark c [] = refl
  points-mark c (e ∷ l) = ground (arith, points-mark c l)

abbrev Avoids : List ℕ → List DistSetElem → Type 0
Avoids edges = All (λ e. elem e.point edges ≡ false)

Avoids-snoc :
    (edges : List ℕ) (p : ℕ) (l : List DistSetElem)
    → Avoids edges l
    → elem p (points l) ≡ false
    → Avoids (edges ++ p ∷ []) l
Avoids-snoc edges p [] a h = tt
Avoids-snoc edges p (e ∷ l) a h = (
  ground (arith, elem-append e.point edges (p ∷ []), ==_iff e.point p, ==_iff p e.point),
  Avoids-snoc edges p l a.1 (ground arith),
)

Avoids-nil : (l : List DistSetElem) → Avoids [] l
Avoids-nil [] = tt
Avoids-nil (x ∷ l) = (refl, Avoids-nil l)

Avoids-of_points :
    (edges : List ℕ) (l m : List DistSetElem)
    → points l ≡ points m
    → Avoids edges l
    → Avoids edges m
Avoids-of_points edges [] [] e a = tt
Avoids-of_points edges [] (y ∷ m) e a = absurd (ground arith)
Avoids-of_points edges (x ∷ l) [] e a = absurd (ground arith)
Avoids-of_points edges (x ∷ l) (y ∷ m) e a =
    (ground arith, Avoids-of_points edges l m (ground arith) a.1)

module _ (distance_from : ℕ → ℕ → ℕ) (multiply : ℕ → ℕ → ℕ) (alpha degree_bound : ℕ) where
  abbrev loop : ℕ → ℕ → List ℕ → List DistSetElem → List ℕ
  loop = prune_loop distance_from multiply alpha degree_bound

  loop-length :
      (k node : ℕ) (edges : List ℕ) (items : List DistSetElem)
      → length edges < degree_bound
      → length (loop k node edges items) ≤ degree_bound
  unfolding prune_loop add_neighbour
  loop-length zero node edges items h = omega arith
  loop-length (suc k) node edges [] h = omega arith
  loop-length (suc k) node edges (e ∷ rest) h =
      let marked = mark distance_from multiply alpha degree_bound e.point rest in
      ground (
        arith,
        length-append edges (e.point ∷ []),
        loop-length k node edges rest h,
        loop-length k node (edges ++ e.point ∷ []) marked,
      )

  loop-not_self :
      (k node : ℕ) (edges : List ℕ) (items : List DistSetElem)
      → elem node edges ≡ false
      → elem node (loop k node edges items) ≡ false
  unfolding prune_loop add_neighbour
  loop-not_self zero node edges items h = h
  loop-not_self (suc k) node edges [] h = h
  loop-not_self (suc k) node edges (e ∷ rest) h =
      let marked = mark distance_from multiply alpha degree_bound e.point rest in
      ground (
        arith,
        elem-append node edges (e.point ∷ []),
        ==_iff e.point node,
        ==_iff node e.point,
        loop-not_self k node edges rest h,
        loop-not_self k node (edges ++ e.point ∷ []) marked,
      )

  loop-subset :
      (k node : ℕ) (edges : List ℕ) (items : List DistSetElem) (q : ℕ)
      → elem q (loop k node edges items) ≡ true
      → (elem q edges || elem q (points items)) ≡ true
  unfolding prune_loop add_neighbour
  loop-subset zero node edges items q h = ground arith
  loop-subset (suc k) node edges [] q h = ground arith
  loop-subset (suc k) node edges (e ∷ rest) q h =
      let marked = mark distance_from multiply alpha degree_bound e.point rest in
      ground (
        arith,
        elem-append q edges (e.point ∷ []),
        points-mark distance_from multiply alpha degree_bound e.point rest,
        loop-subset k node edges rest q,
        loop-subset k node (edges ++ e.point ∷ []) marked q,
      )

  loop-Distinct :
      (k node : ℕ) (edges : List ℕ) (items : List DistSetElem)
      → Distinct edges
      → Distinct (points items)
      → Avoids edges items
      → Distinct (loop k node edges items)
  unfolding prune_loop add_neighbour
  loop-Distinct zero node edges items d p a = d
  loop-Distinct (suc k) node edges [] d p a = d
  loop-Distinct (suc k) node edges (e ∷ rest) d p a =
      let marked = mark distance_from multiply alpha degree_bound e.point rest in
      let same : points marked ≡ points rest =
        points-mark distance_from multiply alpha degree_bound e.point rest in
      let d' : Distinct (edges ++ e.point ∷ []) = Distinct-snoc edges e.point d a.0 in
      let avoids : Avoids (edges ++ e.point ∷ []) marked =
        Avoids-of_points _ rest marked (sym same) (Avoids-snoc edges e.point rest a.1 p.0) in
      let skip = loop-Distinct k node edges rest d p.1 a.1 in
      let more = loop-Distinct k node (edges ++ e.point ∷ []) marked d' (rw same p.1) avoids in
      elim (Bool-cases (e.prune_removed || e.point == node)) [
        | inl t ↦ rw t skip
        | inr f ↦ rw f (elim (Bool-cases (leb degree_bound (length (edges ++ e.point ∷ [])))) [
          | inl full ↦ rw full d'
          | inr room ↦ rw room more
        ])
      ]

  -- With a positive degree bound and candidates of which no two are the same point, pruning leaves a
  -- node at most that many edges, none to itself, no two to the same point, and each to a candidate.
  pub robust_prune_bounds :
      (node : ℕ) (candidates : DistSet)
      → 0 < degree_bound
      → Distinct (points candidates.items)
      → (length (robust_prune distance_from multiply alpha degree_bound node candidates)
          ≤ degree_bound)
        × (elem node (robust_prune distance_from multiply alpha degree_bound node candidates)
            ≡ false)
        × Distinct (robust_prune distance_from multiply alpha degree_bound node candidates)
        × ((q : ℕ)
            → (not (elem q (robust_prune distance_from multiply alpha degree_bound node candidates))
                || elem q (points candidates.items))
              ≡ true)
  unfolding robust_prune
  robust_prune_bounds node candidates pos d =
      let items = candidates.items in
      (
        loop-length (length items) node [] items pos,
        loop-not_self (length items) node [] items refl,
        loop-Distinct (length items) node [] items tt d (Avoids-nil items),
        λ q.
            elim (Bool-cases (
              elem q (
                prune_loop distance_from multiply alpha degree_bound (length items) node []
                  items))) [
                    | inl kept ↦ ground (arith, loop-subset (length items) node [] items q kept)
                    | inr gone ↦ rw gone refl
                  ],
      )
