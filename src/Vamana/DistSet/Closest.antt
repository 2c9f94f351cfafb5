-- ===== src/Vamana/DistSet/Closest.antt =====
-- What the greedy search keeps: of the points that it has seen, the closest ones, in order.
use semadb.Base.{
  All, All-append, All-map, Bool-cases, Distinct, List, ap, arith, elem, false, inl, inr, length,
  length-append, refl, subst, sym, true, ℕ, ==_iff, [], ◌++◌, ◌+◌, ◌<◌, ◌==◌, ◌||◌, ◌∙◌, ◌∷◌, ◌≡◌,
  ◌≤◌, ◌⊎◌,
}
use semadb.Base.Float.{IsNumber32, float32_lt, float32_lt-false, float32_lt-true, rank32}
use semadb.Base.Result.{Result, ok}
use semadb.Vamana.DistSet.{
  DistSet, DistSetElem, add_new, add_one, add_with_limit, but_last, check_and_visit, insert_last,
  new_dist_set, new_elem,
}
use semadb.Vamana.DistSet.Sift.{
  All-insert_last, AreNumbers, Ascending, elem-insert_last, elem-points-append,
  insert_last-Ascending, insert_last-Distinct, length-insert_last, points, rank,
}
use semadb.Vamana.DistSet.Init.{All-init, Ascending-init, Distinct-init, last-some, last_split}

module _ (dist_fn : ℕ → ℕ) where
  -- a point that was seen is in the set, or the set is full of points that are no further
  abbrev pub IsPlaced : DistSet → ℕ → Type 0
  IsPlaced ds p =
      (elem p (points ds.items) ≡ true)
      ⊎ ((length ds.items ≡ ds.capacity) × All (λ e. rank e ≤ rank32 (dist_fn p)) ds.items)

  -- The set is in order and within its capacity, it has every point once, with its distance, only
  -- points that were seen, and of these the closest.
  pub record IsClosest (ds : DistSet) : Type 0 where
    pub sorted : Ascending ds.items
    pub exact : All (λ e. e.distance ≡ dist_fn e.point) ds.items
    pub bounded : length ds.items ≤ ds.capacity
    pub once : Distinct (points ds.items)
    pub from_seen : All (λ e. elem e.point ds.visit_set ≡ true) ds.items
    pub placed : All (IsPlaced ds) ds.visit_set

numbers_of_exact :
    (dist_fn : ℕ → ℕ) (numbers : (p : ℕ) → IsNumber32 (dist_fn p)) (l : List DistSetElem)
    → All (λ e. e.distance ≡ dist_fn e.point) l
    → AreNumbers l
numbers_of_exact dist_fn numbers [] h = tt
numbers_of_exact dist_fn numbers (x ∷ l) h =
    (rw h.0 (numbers x.point), numbers_of_exact dist_fn numbers l h.1)

-- a larger visited set
seen_cons :
    (p : ℕ) (set : List ℕ) (l : List DistSetElem)
    → All (λ e. elem e.point set ≡ true) l
    → All (λ e. elem e.point (p ∷ set) ≡ true) l
seen_cons p set [] h = tt
seen_cons p set (x ∷ l) h = (ground arith, seen_cons p set l h.1)

-- a point outside the visited set is not among the items
fresh_point :
    (p : ℕ) (set : List ℕ) (l : List DistSetElem)
    → elem p set ≡ false
    → All (λ e. elem e.point set ≡ true) l
    → elem p (points l) ≡ false
fresh_point p set [] h a = refl
fresh_point p set (x ∷ l) h a = elim (Bool-cases (p == x.point)) [
  | inl same ↦ cc ((==_iff p x.point).0 same)
  | inr differ ↦ rw differ (fresh_point p set l h a.1)
]

-- the invariant as a family over the items
abbrev ClosestAt : (ℕ → ℕ) → DistSet → List ℕ → List DistSetElem → Type 0
ClosestAt dist_fn ds set l =
    IsClosest dist_fn (record {
      items = l;
      capacity = ds.capacity;
      visit_set = set;
      sorted_until = ds.sorted_until;
    })

module _ (dist_fn : ℕ → ℕ) (numbers : (p : ℕ) → IsNumber32 (dist_fn p)) where
  -- the three ways to treat a new point: there is room, it is too far, it replaces the last item
  room-IsClosest :
      (l : List DistSetElem) (cap k : ℕ) (set : List ℕ) (p : ℕ) (k' : ℕ)
      → IsClosest dist_fn (record { items = l; capacity = cap; visit_set = set; sorted_until = k })
      → elem p set ≡ false
      → length l < cap
      → IsClosest dist_fn (record {
        items = insert_last l (new_elem p (dist_fn p));
        capacity = cap;
        visit_set = p ∷ set;
        sorted_until = k';
      })
  room-IsClosest l cap k set p k' c new room =
      let x = new_elem p (dist_fn p) in
      record {
        sorted =
            insert_last-Ascending l x (numbers p) (numbers_of_exact dist_fn numbers l c.exact)
              c.sorted;
        exact = All-insert_last _ l x refl c.exact;
        bounded = omega (arith, length-insert_last l x);
        once = insert_last-Distinct l x c.once (fresh_point p set l new c.from_seen);
        from_seen = All-insert_last _ l x (ground arith) (seen_cons p set l c.from_seen);
        placed = (
          inl (ground (arith, elem-insert_last p l x)),
          All-map _ _ set
              (λ q h. elim h [
                | inl here ↦ inl (ground (arith, elem-insert_last q l x))
                | inr full ↦ absurd (omega arith)
              ])
              c.placed,
        );
      }

  far-IsClosest :
      (l : List DistSetElem) (f : DistSetElem) (cap k : ℕ) (set : List ℕ) (p : ℕ)
      → IsClosest dist_fn
          (record { items = l ++ f ∷ []; capacity = cap; visit_set = set; sorted_until = k })
      → length (l ++ f ∷ []) ≡ cap
      → rank f ≤ rank32 (dist_fn p)
      → IsClosest dist_fn
          (record { items = l ++ f ∷ []; capacity = cap; visit_set = p ∷ set; sorted_until = k })
  far-IsClosest l f cap k set p c full far =
      let (init, below) = Ascending-init l f c.sorted in
      record {
        sorted = c.sorted;
        exact = c.exact;
        bounded = c.bounded;
        once = c.once;
        from_seen = seen_cons p set (l ++ f ∷ []) c.from_seen;
        placed = (
          inr (full, All-append _ l (f ∷ []) (All-map _ _ l (λ e h. omega arith) below) (far, tt)),
          c.placed,
        );
      }

  replace-IsClosest :
      (l : List DistSetElem) (f : DistSetElem) (cap k : ℕ) (set : List ℕ) (p : ℕ)
      → IsClosest dist_fn
          (record { items = l ++ f ∷ []; capacity = cap; visit_set = set; sorted_until = k })
      → elem p set ≡ false
      → length (l ++ f ∷ []) ≡ cap
      → rank32 (dist_fn p) ≤ rank f
      → IsClosest dist_fn (record {
        items = insert_last l (new_elem p (dist_fn p));
        capacity = cap;
        visit_set = p ∷ set;
        sorted_until = k;
      })
  replace-IsClosest l f cap k set p c new full near =
      let x = new_elem p (dist_fn p) in
      let (sorted, below) = Ascending-init l f c.sorted in
      let (exact, exact_f) = All-init _ l f c.exact in
      let (from_seen, seen_f) = All-init _ l f c.from_seen in
      let sized : length (insert_last l x) ≡ cap =
        omega (arith, length-insert_last l x, length-append l (f ∷ [])) in
      let all_below : All (λ e. rank e ≤ rank f) (insert_last l x) =
        All-insert_last _ l x near below in
      record {
        sorted =
            insert_last-Ascending l x (numbers p) (numbers_of_exact dist_fn numbers l exact) sorted;
        exact = All-insert_last _ l x refl exact;
        bounded = omega arith;
        once =
            insert_last-Distinct l x (Distinct-init l f c.once) (fresh_point p set l new from_seen);
        from_seen = All-insert_last _ l x (ground arith) (seen_cons p set l from_seen);
        placed = (
          inl (ground (arith, elem-insert_last p l x)),
          All-map _ _ set
              (λ q h. elim h [
                | inl here ↦ elim (Bool-cases (elem q (points l))) [
                  | inl kept ↦ inl (ground (arith, elem-insert_last q l x))
                  | inr out ↦
                      let same : q ≡ f.point =
                        ground (arith, elem-points-append q l (f ∷ []), ==_iff q f.point) in
                      let level : rank f ≡ rank32 (dist_fn q) = cc (exact_f, same) in
                      inr (sized, All-map _ _ (insert_last l x) (λ e b. omega arith) all_below)
                ]
                | inr (_, above) ↦
                    let (_, top) = All-init _ l f above in
                    inr (sized, All-map _ _ (insert_last l x) (λ e b. omega arith) all_below)
              ])
              c.placed,
        );
      }

  add_new-IsClosest :
      (ds : DistSet) (p : ℕ)
      → IsClosest dist_fn ds
      → 0 < ds.capacity
      → elem p ds.visit_set ≡ false
      → (ds' : DistSet) × (add_new dist_fn (record ds { visit_set = p ∷ ds.visit_set }) p ≡ ok ds')
        × IsClosest dist_fn ds'
        × (ds'.visit_set ≡ p ∷ ds.visit_set)
        × (ds'.capacity ≡ ds.capacity)
  unfolding add_new
  add_new-IsClosest ds p c pos new = elim (Bool-cases (length ds.items == ds.capacity)) [
    | inr room ↦ (
      record ds {
        items = insert_last ds.items (new_elem p (dist_fn p));
        visit_set = p ∷ ds.visit_set;
        sorted_until = ds.sorted_until + 1;
      },
      rw room refl,
      room-IsClosest ds.items ds.capacity ds.sorted_until ds.visit_set p (ds.sorted_until + 1) c new
          (ground arith),
      refl,
      refl,
    )
    | inl full ↦
        let filled : length ds.items ≡ ds.capacity =
          (==_iff (length ds.items) ds.capacity).0 full in
        let (f, found) = last-some ds.items (omega arith) in
        let init = but_last ds.items in
        let split : ds.items ≡ init ++ f ∷ [] = last_split ds.items f (omega arith) found in
        let filled' : length (init ++ f ∷ []) ≡ ds.capacity = ap length (sym split) ∙ filled in
        let whole : IsClosest dist_fn (record {
          items = init ++ f ∷ [];
          capacity = ds.capacity;
          visit_set = ds.visit_set;
          sorted_until = ds.sorted_until;
        }) =
          subst (ClosestAt dist_fn ds ds.visit_set) split c in
        let f_exact : f.distance ≡ dist_fn f.point = (All-init _ init f whole.exact).1 in
        let f_number : IsNumber32 f.distance = rw f_exact (numbers f.point) in
        elim (Bool-cases (float32_lt f.distance (dist_fn p))) [
          | inl far ↦ (
            record ds { visit_set = p ∷ ds.visit_set },
            ground arith,
            subst (ClosestAt dist_fn ds (p ∷ ds.visit_set)) (sym split) (
                far-IsClosest init f ds.capacity ds.sorted_until ds.visit_set p whole filled'
                  (omega (arith, float32_lt-true f.distance (dist_fn p) far))),
            refl,
            refl,
          )
          | inr near ↦ (
            record ds {
              items = insert_last init (new_elem p (dist_fn p));
              visit_set = p ∷ ds.visit_set;
            },
            ground arith,
            replace-IsClosest init f ds.capacity ds.sorted_until ds.visit_set p whole new filled'
                (float32_lt-false f.distance (dist_fn p) f_number (numbers p) near),
            refl,
            refl,
          )
        ]
  ]

  -- what a run of `AddWithLimit` from `ds` gives
  abbrev Grows : DistSet → List ℕ → Result DistSet → Type 0
  Grows ds ps r =
      (ds' : DistSet) × (r ≡ ok ds')
      × IsClosest dist_fn ds'
      × (ds'.capacity ≡ ds.capacity)
      × ((q : ℕ) → elem q ds'.visit_set ≡ (elem q ps || elem q ds.visit_set))

  add_one-IsClosest :
      (ds : DistSet) (p : ℕ)
      → IsClosest dist_fn ds
      → 0 < ds.capacity
      → Grows ds (p ∷ []) (add_one dist_fn ds p)
  unfolding add_one check_and_visit
  add_one-IsClosest ds p c pos = elim (Bool-cases (elem p ds.visit_set)) [
    | inl old ↦ (ds, rw old refl, c, refl, λ q. ground (arith, ==_iff q p))
    | inr new ↦
        let (ds', added, closest, grown, same) = add_new-IsClosest ds p c pos new in
        (ds', rw new added, closest, same, λ q. rw grown (ground arith))
  ]

  -- With a capacity, and distances that are numbers, `AddWithLimit` never panics: after it the set is
  -- in order, within its capacity, without repetition, and holds, of all the points that it has seen
  -- in this call and before, the closest ones; a point that it does not hold is no closer than any
  -- that it holds, and is left out only because the set is full.
  pub add_with_limit-IsClosest :
      (ds : DistSet) (ps : List ℕ)
      → IsClosest dist_fn ds
      → 0 < ds.capacity
      → (ds' : DistSet) × (add_with_limit dist_fn ds ps ≡ ok ds')
        × IsClosest dist_fn ds'
        × (ds'.capacity ≡ ds.capacity)
        × ((q : ℕ) → elem q ds'.visit_set ≡ (elem q ps || elem q ds.visit_set))
  unfolding add_with_limit
  add_with_limit-IsClosest ds [] c pos = (ds, refl, c, refl, λ q. refl)
  add_with_limit-IsClosest ds (p ∷ ps) c pos =
      let (ds1, first, c1, cap1, seen1) = add_one-IsClosest ds p c pos in
      let (ds2, rest, c2, cap2, seen2) = add_with_limit-IsClosest ds1 ps c1 (omega arith) in
      (ds2, rw first rest, c2, cap2 ∙ cap1, λ q. ground (arith, seen1 q, seen2 q))

-- the set that a search starts from
pub new_dist_set-IsClosest : (dist_fn : ℕ → ℕ) (cap : ℕ) → IsClosest dist_fn (new_dist_set cap)
unfolding new_dist_set
new_dist_set-IsClosest dist_fn cap = record {
  sorted = tt;
  exact = tt;
  bounded = omega arith;
  once = tt;
  from_seen = tt;
  placed = tt;
}
