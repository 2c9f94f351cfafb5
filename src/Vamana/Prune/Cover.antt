-- ===== src/Vamana/Prune/Cover.antt =====
-- What pruning leaves out: a candidate that gets no edge is closer to a kept neighbour than to the
-- node, or the node is full.
use semadb.Base.{
  All, All-map, Bool, Bool-cases, List, ap, arith, elem, elem-append, false, inl, inr, leb, length,
  not, refl, subst, suc, sym, true, zero, ℕ, [], ◌++◌, ◌==◌, if◌then◌else◌, ◌||◌, ◌∙◌, ◌∷◌, ◌≡◌,
  ◌≤◌,
}
use mathlib.Core.List.{append-nil, append_assoc}
use semadb.Base.Float.{float32_lt}
use semadb.Vamana.DistSet.{DistSet, DistSetElem}
use semadb.Vamana.Prune.{add_neighbour, mark, mark_one, prune_loop, robust_prune}

module _ (distance_from : ℕ → ℕ → ℕ) (multiply : ℕ → ℕ → ℕ) (alpha degree_bound : ℕ) where
  -- some edge leads to a point whose distance to `p`, times alpha, is below `d`
  pub dominated : List ℕ → ℕ → ℕ → Bool
  dominated [] p d = false
  dominated (e ∷ edges) p d =
      float32_lt (multiply alpha (distance_from e p)) d || dominated edges p d

  -- there is an edge to `p`, or a neighbour that dominates it, or no room
  pub covered : List ℕ → ℕ → ℕ → Bool
  covered edges p d = elem p edges || dominated edges p d || leb degree_bound (length edges)

  dominated-append :
      (xs ys : List ℕ) (p d : ℕ) → dominated (xs ++ ys) p d ≡ (dominated xs p d || dominated ys p d)
  unfolding dominated
  dominated-append [] ys p d = refl
  dominated-append (x ∷ xs) ys p d = ground (arith, dominated-append xs ys p d)

  abbrev loop : ℕ → ℕ → List ℕ → List DistSetElem → List ℕ
  loop = prune_loop distance_from multiply alpha degree_bound

  abbrev marks : ℕ → List DistSetElem → List DistSetElem
  marks = mark distance_from multiply alpha degree_bound

  -- the loop only adds edges
  loop_extends :
      (k node : ℕ) (edges : List ℕ) (items : List DistSetElem)
      → (added : List ℕ) × (loop k node edges items ≡ edges ++ added)
  unfolding prune_loop add_neighbour
  loop_extends zero node edges items = ([], sym (append-nil edges))
  loop_extends (suc k) node edges [] = ([], sym (append-nil edges))
  loop_extends (suc k) node edges (e ∷ rest) =
      elim (Bool-cases (e.prune_removed || e.point == node)) [
        | inl t ↦ rw t (loop_extends k node edges rest)
        | inr f ↦ rw f (elim (Bool-cases (leb degree_bound (length (edges ++ e.point ∷ [])))) [
          | inl full ↦ rw full (e.point ∷ [], refl)
          | inr room ↦
              let (added, more) =
                loop_extends k node (edges ++ e.point ∷ []) (marks e.point rest) in
              rw room (e.point ∷ added, more ∙ append_assoc edges (e.point ∷ []) added)
        ])
      ]

  dominated_one :
      (c p d : ℕ) → dominated (c ∷ []) p d ≡ float32_lt (multiply alpha (distance_from c p)) d
  unfolding dominated
  dominated_one c p d = ground arith

  -- an item that is removed is dominated
  abbrev IsJustified : List ℕ → DistSetElem → Type 0
  IsJustified edges e = (not e.prune_removed || dominated edges e.point e.distance) ≡ true

  mark-IsJustified :
      (edges : List ℕ) (c : ℕ) (l : List DistSetElem)
      → All (IsJustified edges) l
      → All (IsJustified (edges ++ c ∷ [])) (marks c l)
  unfolding mark
  mark-IsJustified edges c [] h = tt
  mark-IsJustified edges c (e ∷ l) h = (
    ground (
      arith,
      dominated-append edges (c ∷ []) e.point e.distance,
      dominated_one c e.point e.distance,
    ),
    mark-IsJustified edges c l h.1,
  )

  -- marking changes neither points nor distances
  mark_one_same :
      (c : ℕ) (e : DistSetElem)
      → ((mark_one distance_from multiply alpha degree_bound c e).point ≡ e.point)
        × ((mark_one distance_from multiply alpha degree_bound c e).distance ≡ e.distance)
  unfolding mark_one
  mark_one_same c e = ground arith

  All-unmark :
      (P : ℕ → ℕ → Type 0) (c : ℕ) (l : List DistSetElem)
      → All (λ e. P e.point e.distance) (marks c l)
      → All (λ e. P e.point e.distance) l
  unfolding mark
  All-unmark P c [] h = tt
  All-unmark P c (e ∷ l) h =
      let e' = mark_one distance_from multiply alpha degree_bound c e in
      let (same_point, same_distance) = mark_one_same c e in
      (
        subst (λ p. P p e.distance) same_point (subst (P e'.point) same_distance h.0),
        All-unmark P c l h.1,
      )

  length-mark : (c : ℕ) (l : List DistSetElem) → length (marks c l) ≡ length l
  unfolding mark
  length-mark c [] = refl
  length-mark c (e ∷ l) = ap suc (length-mark c l)

  abbrev IsSettled : ℕ → List ℕ → ℕ → ℕ → Type 0
  IsSettled node edges p d = (p == node || covered edges p d) ≡ true

  abbrev AllSettled : ℕ → List DistSetElem → List ℕ → Type 0
  AllSettled node items edges = All (λ e. IsSettled node edges e.point e.distance) items

  -- one round of the loop, on each branch
  loop_skip :
      (k node : ℕ) (edges : List ℕ) (e : DistSetElem) (rest : List DistSetElem)
      → (e.prune_removed || e.point == node) ≡ true
      → loop (suc k) node edges (e ∷ rest) ≡ loop k node edges rest
  unfolding prune_loop
  loop_skip k node edges e rest t = rw t

  loop_take :
      (k node : ℕ) (edges : List ℕ) (e : DistSetElem) (rest : List DistSetElem)
      → (e.prune_removed || e.point == node) ≡ false
      → loop (suc k) node edges (e ∷ rest) ≡ (
          if leb degree_bound (length (edges ++ e.point ∷ []))
          then edges ++ e.point ∷ []
          else loop k node (edges ++ e.point ∷ []) (marks e.point rest))
  unfolding prune_loop add_neighbour
  loop_take k node edges e rest f = rw f

  settles_skip :
      (k node : ℕ) (edges : List ℕ) (e : DistSetElem) (rest : List DistSetElem)
      → IsJustified edges e
      → (e.prune_removed || e.point == node) ≡ true
      → IsSettled node (loop k node edges rest) e.point e.distance
  unfolding covered
  settles_skip k node edges e rest h t =
      let (added, ext) = loop_extends k node edges rest in
      ground (
        arith,
        ap (λ r. dominated r e.point e.distance) ext,
        dominated-append edges added e.point e.distance,
      )

  settles_full :
      (node : ℕ) (edges : List ℕ) (items : List DistSetElem)
      → leb degree_bound (length edges) ≡ true
      → AllSettled node items edges
  unfolding covered
  settles_full node edges [] h = tt
  settles_full node edges (e ∷ items) h = (ground arith, settles_full node edges items h)

  settles_taken :
      (k node : ℕ) (edges : List ℕ) (p d : ℕ) (rest : List DistSetElem)
      → IsSettled node (loop k node (edges ++ p ∷ []) rest) p d
  unfolding covered
  settles_taken k node edges p d rest =
      let (added, ext) = loop_extends k node (edges ++ p ∷ []) rest in
      ground (
        arith,
        ap (elem p) ext,
        elem-append p (edges ++ p ∷ []) added,
        elem-append p edges (p ∷ []),
      )

  loop_settles :
      (k node : ℕ) (edges : List ℕ) (items : List DistSetElem)
      → length items ≤ k
      → All (IsJustified edges) items
      → AllSettled node items (loop k node edges items)
  loop_settles zero node edges [] n h = tt
  loop_settles zero node edges (e ∷ rest) n h = absurd (omega arith)
  loop_settles (suc k) node edges [] n h = tt
  loop_settles (suc k) node edges (e ∷ rest) n h =
      let edges' = edges ++ e.point ∷ [] in
      let marked = marks e.point rest in
      let skipped = loop_settles k node edges rest (omega arith) h.1 in
      let taken =
        loop_settles k node edges' marked (omega (arith, length-mark e.point rest))
          (mark-IsJustified edges e.point rest h.1) in
      elim (Bool-cases (e.prune_removed || e.point == node)) [
        | inl t ↦
            subst (AllSettled node (e ∷ rest)) (sym (loop_skip k node edges e rest t))
              (settles_skip k node edges e rest h.0 t, skipped)
        | inr f ↦
            subst (AllSettled node (e ∷ rest)) (sym (loop_take k node edges e rest f))
              (elim (Bool-cases (leb degree_bound (length edges'))) [
                | inl full ↦
                    subst (AllSettled node (e ∷ rest)) (rw full refl)
                      (settles_full node edges' (e ∷ rest) full)
                | inr room ↦ subst (AllSettled node (e ∷ rest)) (rw room refl) (
                  settles_taken k node edges e.point e.distance marked,
                  All-unmark (IsSettled node (loop k node edges' marked)) e.point rest taken,
                )
              ])
      ]

  -- Of candidates that are not yet marked, pruning leaves out only the node itself, those that a kept
  -- neighbour dominates (alpha times their distance to it is below their distance to the node), and,
  -- if the degree bound is reached, others.
  pub robust_prune_covers :
      (node : ℕ) (candidates : DistSet)
      → All (λ e. e.prune_removed ≡ false) candidates.items
      → All
          (λ e.
            (e.point == node
              || covered
                  (robust_prune distance_from multiply alpha degree_bound node candidates)
                  e.point
                  e.distance)
            ≡ true)
          candidates.items
  unfolding robust_prune
  robust_prune_covers node candidates h =
      loop_settles (length candidates.items) node [] candidates.items (omega arith)
        (All-map _ _ candidates.items (λ e f. ground arith) h)
