-- ===== src/Cluster/Placement/Ranges.antt =====
-- What a shard takes of the points fits, and the ranges that are assigned one after another.
use semadb.Base.{
  List, [], arith, inl, inr, length, ltb, none, refl, sym, take, ◌+◌, ◌<◌, ◌||◌, ◌≡◌, ◌≤◌, ◌⊎◌,
  ◌++◌, ◌∷◌, ℕ, ap, Bool-cases,
}
use semadb.Base.Assoc.{insert, lookup}
use semadb.Cluster.Placement.{Assignments, count_taken, point_size}
use semadb.Conversion.{Bytes}
use semadb.Diskstore.Order.{bytes_eq, bytes_key}
use semadb.Shard.Points.{Point}

-- the sizes of points, together
pub total_size : List Point → ℕ
total_size [] = 0
total_size (p ∷ points) = point_size p + total_size points

-- the ranges follow one another from `a` to `b`, and none is empty
abbrev pub Tiles : ℕ → Assignments → ℕ → Type 0
Tiles a [] b = a ≡ b
Tiles a ((id, (x, y)) ∷ m) b = (a ≡ x) × (x < y) × Tiles y m b

pub Tiles-append :
    (a b c : ℕ) (id : Bytes) (m : Assignments)
    → Tiles a m b
    → b < c
    → Tiles a (m ++ (id, (b, c)) ∷ []) c
Tiles-append a b c id [] t h = (t, h, refl)
Tiles-append a b c id ((i, (x, y)) ∷ m) t h = (t.0, t.1, Tiles-append y b c id m t.2 h)

pub insert_new :
    (id : Bytes) (v : ℕ × ℕ) (m : Assignments)
    → lookup id m ≡ none
    → insert id v m ≡ m ++ (id, v) ∷ []
unfolding insert lookup
insert_new id v [] h = refl
insert_new id v ((i, w) ∷ m) h = elim (Bool-cases (bytes_eq i id)) [
  | inl same ↦ absurd (ground arith)
  | inr other ↦ rw other (ap (◌∷◌ (i, w)) (insert_new id v m (ground arith)))
]

module _ (max_size max_count : ℕ) where
  -- what a shard takes fits, and is no more than there is
  pub taken_fits :
      (size count : ℕ) (points : List Point)
      → let n = count_taken max_size max_count size count points in
        (n ≤ length points)
        × ((0 ≡ n) ⊎ ((size + total_size (take n points) ≤ max_size) × (count + n ≤ max_count)))
  unfolding count_taken total_size
  taken_fits size count [] = (omega arith, inl refl)
  taken_fits size count (p ∷ points) =
      let (bounded, fits) = taken_fits (size + point_size p) (count + 1) points in
      let n = count_taken max_size max_count (size + point_size p) (count + 1) points in
      let room_for : 0 ≡ n → total_size (take n points) ≡ 0 =
        λ e. ap (λ m. total_size (take m points)) (sym e) in
      elim (Bool-cases (ltb max_size (size + point_size p) || ltb max_count (count + 1))) [
        | inl full ↦ rw full (omega arith, inl refl)
        | inr room ↦
            let small : size + point_size p ≤ max_size = ground arith in
            let few : count + 1 ≤ max_count = ground arith in
            rw room (
              omega arith,
              inr (elim fits [
                | inl none_taken ↦ (omega (arith, room_for none_taken), omega arith)
                | inr more ↦ (omega arith, omega arith)
              ]),
            )
      ]
