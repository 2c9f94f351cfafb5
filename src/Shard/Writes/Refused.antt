-- ===== src/Shard/Writes/Refused.antt =====
-- The insertions that are refused.
use semadb.Base.{
  All, Bool, Bool-cases, List, [], arith, false, inl, inr, length, refl, true, ◌+◌, ◌<◌, ◌^◌, ◌||◌,
  ◌∷◌, ◌≡◌, ◌⊎◌,
}
use semadb.Base.Result.{Result, duplicate_point, err, ok, point_exists}
use semadb.Conversion.{Bytes}
use semadb.Diskstore.{MemBucket}
use semadb.Diskstore.Order.{bytes_eq, bytes_eq_iff}
use semadb.Shard.IdCounter.{IdCounter}
use semadb.Shard.Points.{Point, ShardPoint, check_point_exists}
use semadb.Shard.Points.Holds.{Holds}
use semadb.Shard.Writes.{
  IndexPointChange, Shard, has_duplicates, insert_all, insert_one, insert_points,
  insert_transaction, transaction,
}
use semadb.Shard.Writes.Stored.{IsShard}
use semadb.Shard.Writes.Tracked.{Tracks, insert_one_lem, is_held}

-- a point of the request is held
unfoldable pub any_held : List Point → List ShardPoint → Bool
any_held [] held = false
any_held (p ∷ points) held = is_held p.id held || any_held points held

any_held-cons :
    (points : List Point) (p : ShardPoint) (held : List ShardPoint)
    → any_held points held ≡ true
    → any_held points (p ∷ held) ≡ true
unfolding any_held
any_held-cons [] p held h = h
any_held-cons (q ∷ points) p held h = elim (Bool-cases (is_held q.id held)) [
  | inl here ↦ ground arith
  | inr later ↦ ground (arith, any_held-cons points p held (ground arith))
]

-- a UUID that is held is known to the bucket
held_exists :
    (b : MemBucket) (u : Bytes) (held : List ShardPoint)
    → is_held u held ≡ true
    → All (Holds b) held
    → check_point_exists b u ≡ true
unfolding check_point_exists
held_exists b u [] h a = absurd (ground arith)
held_exists b u (p ∷ held) h a = elim (Bool-cases (bytes_eq p.id u)) [
  | inl same ↦ let equal : p.id ≡ u = (bytes_eq_iff p.id u).0 same in rw (← equal, a.0.by_uuid) refl
  | inr other ↦ held_exists b u held (ground arith) a.1
]

insert_all_refused :
    (b : MemBucket) (c : IdCounter) (held : List ShardPoint) (points : List Point)
    → Tracks b c held
    → any_held points held ≡ true
    → c.next_free_id + length points < 2 ^ 64
    → insert_all b c points ≡ err point_exists
unfolding insert_all any_held insert_one
insert_all_refused b c held [] t h bound = absurd (ground arith)
insert_all_refused b c held (p ∷ points) t h bound = elim (Bool-cases (is_held p.id held)) [
  | inl here ↦ rw (insert_all, insert_one, held_exists b p.id held here t.holds) refl
  | inr new ↦
      let (id, b1, c1, run, t1, raised) = insert_one_lem b c held p t new (omega arith) in
      let sp : ShardPoint = record { point = p; node_id = id } in
      let rest =
        insert_all_refused b1 c1 (sp ∷ held) points t1 (any_held-cons points sp held (ground arith))
          (omega arith) in
      rw (insert_all, run, rest) refl
]

failed-not_ok : (r : Result (Unit {0})) → r ≡ err point_exists → ¬ (r ≡ ok tt)
failed-not_ok r failed inserted = absurd (ground arith)

module _ {I : Type 0} (dispatch : List IndexPointChange → I → Result I) where
  -- A shard holds some points, its node ids stay within 64 bits, and a UUID of a request stands in it
  -- twice or is held already. If a UUID stands in it twice, the request is refused with that error and
  -- the shard is as it was: no transaction starts. If none does, the transformation of the points ends
  -- with the error of an existing point, and the insertion does not succeed, whatever the indexes do;
  -- which error it reports then, and what is left of its writes, is not stated.
  pub insert_points_refused :
      (s : Shard I) (counter : IdCounter) (held : List ShardPoint) (points : List Point)
      → IsShard s counter held
      → counter.next_free_id + length points < 2 ^ 64
      → (has_duplicates points ≡ true) ⊎ (any_held points held ≡ true)
      → ((has_duplicates points ≡ true)
          × (insert_points dispatch s points ≡ (err duplicate_point, s)))
        ⊎ ((has_duplicates points ≡ false)
            × (insert_all s.points counter points ≡ err point_exists)
            × ¬ ((insert_points dispatch s points).0 ≡ ok tt))
  unfolding insert_points insert_transaction transaction
  insert_points_refused s counter held points shard bound reason =
      elim (Bool-cases (has_duplicates points)) [
        | inl twice ↦ inl (twice, rw (insert_points, twice) refl)
        | inr once ↦ elim reason [
          | inl twice ↦ absurd (ground arith)
          | inr known ↦
              let refused =
                insert_all_refused s.points counter held points shard.tracks known bound in
              let failed : (insert_points dispatch s points).0 ≡ err point_exists =
                rw (insert_points, once, shard.opened, refused) refl in
              inr (once, refused, failed-not_ok (insert_points dispatch s points).0 failed)
        ]
      ]
