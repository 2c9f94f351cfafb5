-- ===== src/Shard/Writes/Picked.antt =====
-- A point is taken out of the points that are held.
use semadb.Base.{
  All, Bool-cases, Distinct, ==_iff, ◌&&◌, List, [], ap, arith, elem, false, if◌then◌else◌, inl,
  inr, not, refl, sym, true, ◌<◌, ◌==◌, ◌^◌, ◌∙◌, ◌∷◌, ◌≡◌,
}
use semadb.Conversion.{Bytes}
use semadb.Diskstore.{MemBucket}
use semadb.Diskstore.Order.{bytes_eq, bytes_eq_comm, bytes_eq_iff}
use semadb.Shard.IdCounter.Freed.{without_id}
use semadb.Shard.Points.{ShardPoint}
use semadb.Shard.Points.Holds.{Holds}
use semadb.Shard.Writes.Tracked.{UniqueIds, is_held, node_ids}

-- the points without the one of a UUID
abbrev pub without_point : Bytes → List ShardPoint → List ShardPoint
without_point u [] = []
without_point u (p ∷ held) = if bytes_eq p.id u then held else p ∷ without_point u held

-- a point that is held, and the others
abbrev pub Picks : MemBucket → Bytes → List ShardPoint → Type 0
Picks b u held =
    (p : ShardPoint) × (p.id ≡ u)
    × Holds b p
    × (p.node_id < 2 ^ 64)
    × (elem p.node_id (node_ids held) ≡ true)
    × (node_ids (without_point u held) ≡ without_id p.node_id (node_ids held))

pub pick :
    (b : MemBucket) (u : Bytes) (held : List ShardPoint)
    → is_held u held ≡ true
    → All (Holds b) held
    → All (λ p. p.node_id < 2 ^ 64) held
    → Distinct (node_ids held)
    → Picks b u held
pick b u [] h a f d = absurd (ground arith)
pick b u (p ∷ held) h a f d = elim (Bool-cases (bytes_eq p.id u)) [
  | inl here ↦ (p, (bytes_eq_iff p.id u).0 here, a.0, f.0, ground arith, rw here (ground arith))
  | inr later ↦
      let (q, equal, holds, fits, inside, rest) = pick b u held (rw later at h) a.1 f.1 d.1 in
      let other : (q.node_id == p.node_id) ≡ false = elim (Bool-cases (q.node_id == p.node_id)) [
        | inl same ↦
            absurd
              (ground (arith, d.0, inside, ap (λ n. elem n (node_ids held)) ((==_iff _ _).0 same)))
        | inr differ ↦ differ
      ] in
      (q, equal, holds, fits, ground arith, rw (later, other) (ap (◌∷◌ p.node_id) rest))
]

pub All-without_point {κ} :
    (P : ShardPoint → Type κ) (u : Bytes) (held : List ShardPoint)
    → All P held
    → All P (without_point u held)
All-without_point P u [] a = tt
All-without_point P u (p ∷ held) a = elim (Bool-cases (bytes_eq p.id u)) [
  | inl here ↦ rw here a.1
  | inr later ↦ rw later (a.0, All-without_point P u held a.1)
]

pub is_held-without_point :
    (u w : Bytes) (held : List ShardPoint)
    → UniqueIds held
    → is_held w (without_point u held) ≡ (is_held w held && not (bytes_eq u w))
is_held-without_point u w [] d = refl
is_held-without_point u w (p ∷ held) d = elim (Bool-cases (bytes_eq p.id u)) [
  | inl here ↦
      let equal = (bytes_eq_iff p.id u).0 here in
      let left : is_held u held ≡ false = ap (λ i. is_held i held) (sym equal) ∙ d.0 in
      rw (here, equal)
        (elim (Bool-cases (bytes_eq u w)) [
          | inl same ↦ rw (same, ← (bytes_eq_iff u w).0 same, left) refl
          | inr differ ↦ rw differ (ground arith)
        ])
  | inr later ↦
      rw (later, is_held-without_point u w held d.1)
        (ground
          (arith, bytes_eq_iff p.id u, bytes_eq_iff u w, bytes_eq_iff p.id w, bytes_eq_comm p.id u))
]

pub UniqueIds-without_point :
    (u : Bytes) (held : List ShardPoint) → UniqueIds held → UniqueIds (without_point u held)
UniqueIds-without_point u [] d = tt
UniqueIds-without_point u (p ∷ held) d = elim (Bool-cases (bytes_eq p.id u)) [
  | inl here ↦ rw here d.1
  | inr later ↦ rw later (
    ground (arith, is_held-without_point u p.id held d.1, d.0),
    UniqueIds-without_point u held d.1,
  )
]

-- an id that is not held
pub without_none :
    (u : Bytes) (held : List ShardPoint) → is_held u held ≡ false → without_point u held ≡ held
without_none u [] h = refl
without_none u (p ∷ held) h = elim (Bool-cases (bytes_eq p.id u)) [
  | inl here ↦ absurd (ground arith)
  | inr later ↦ rw later (ap (◌∷◌ p) (without_none u held (ground arith)))
]
