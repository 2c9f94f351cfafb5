-- ===== src/Shard/Writes/Deleted.antt =====
-- A deletion from a shard keeps its points, its counter and its count in step.
use semadb.Base.{
  Bool, Bool-cases, List, Option, [], ap, arith, if◌then◌else◌, inl, inr, length, none, refl, some,
  ◌%◌, ◌+◌, ◌<◌, ◌^◌, ◌∙◌, ◌∷◌, ◌≡◌,
}
use semadb.Base.Result.{Result, ok}
use semadb.Conversion.{Bytes}
use semadb.Diskstore.{MemBucket}
use semadb.Diskstore.Order.{bytes_eq}
use semadb.Shard.IdCounter.{IdCounter}
use semadb.Shard.Points.{ShardPoint, is_some}
use semadb.Shard.Writes.{
  IndexPointChange, Shard, add_some, id_if, delete_all, delete_points, delete_transaction, minus,
  transaction,
}
use semadb.Shard.Writes.Picked.{without_point}
use semadb.Shard.Writes.Removed.{delete_one_lem}
use semadb.Shard.Writes.Stored.{Finishes, IsShard, Tracks-bucket, finish_lem}
use semadb.Shard.Writes.Tracked.{Tracks, is_held}

-- the points that are left, and the ids of those that were held, in their order
abbrev pub without_points : List Bytes → List ShardPoint → List ShardPoint
without_points [] held = held
without_points (u ∷ ids) held = without_points ids (without_point u held)

abbrev pub held_ids : List Bytes → List ShardPoint → List Bytes
held_ids [] held = []
held_ids (u ∷ ids) held =
    let rest = held_ids ids (without_point u held) in if is_held u held then u ∷ rest else rest

abbrev DeletesAll :
    List Bytes
    → List ShardPoint
    → Result (List IndexPointChange × List Bytes × MemBucket × IdCounter)
    → Type 0
DeletesAll ids held r =
    (changes : List IndexPointChange) × (b' : MemBucket) × (c' : IdCounter) × (r
      ≡ ok (changes, held_ids ids held, b', c'))
    × Tracks b' c' (without_points ids held)

id_if_held :
    (change : Option IndexPointChange) (u : Bytes) (ids : List Bytes) (known : Bool)
    → is_some change ≡ known
    → id_if change u ids ≡ (if known then u ∷ ids else ids)
id_if_held none u ids known h = rw (← h) refl
id_if_held (some change) u ids known h = rw (← h) refl

delete_all_lem :
    (b : MemBucket) (c : IdCounter) (held : List ShardPoint) (ids : List Bytes)
    → Tracks b c held
    → DeletesAll ids held (delete_all b c ids)
unfolding delete_all
delete_all_lem b c held [] t = ([], b, c, refl, t)
delete_all_lem b c held (u ∷ ids) t =
    let (change, b1, c1, run1, some_if, t1) = delete_one_lem b c held u t in
    let (changes, b2, c2, run2, t2) = delete_all_lem b1 c1 (without_point u held) ids t1 in
    (
      add_some change changes,
      b2,
      c2,
      rw (run1, run2)
          (ap (λ l. ok (add_some change changes, l, b2, c2))
            (id_if_held change u (held_ids ids (without_point u held)) (is_held u held) some_if)),
      t2,
    )

length-without_point :
    (u : Bytes) (held : List ShardPoint)
    → length held ≡ (if is_held u held then 1 else 0) + length (without_point u held)
length-without_point u [] = refl
length-without_point u (p ∷ held) = elim (Bool-cases (bytes_eq p.id u)) [
  | inl here ↦ rw here (omega arith)
  | inr later ↦ rw later (ground (arith, length-without_point u held))
]

-- every point is left or deleted
length-without_points :
    (ids : List Bytes) (held : List ShardPoint)
    → length held ≡ length (held_ids ids held) + length (without_points ids held)
length-without_points [] held = omega arith
length-without_points (u ∷ ids) held =
    ground (arith, length-without_point u held, length-without_points ids (without_point u held))

module _ {I : Type 0} (dispatch : List IndexPointChange → I → Result I) where
  -- From a shard that holds some points, fewer than 2 ^ 63, a list of UUIDs is deleted if the dispatch
  -- to the indexes succeeds. The request returns the ids of the points that were held, each once and in
  -- their order, and passes over the others; the shard then holds exactly the points that are left, its
  -- count is lowered by the number of those that it deleted, and their node ids are free again.
  pub delete_points_lem :
      (s : Shard I) (counter : IdCounter) (held : List ShardPoint) (ids : List Bytes)
      → IsShard s counter held
      → ((changes : List IndexPointChange) → (i : I) × (dispatch changes s.indexes ≡ ok i))
      → length held < 2 ^ 63
      → (s' : Shard I) × (counter' : IdCounter) × (delete_points dispatch s ids
          ≡ (ok (held_ids ids held), s'))
        × IsShard s' counter' (without_points ids held)
  unfolding delete_points delete_transaction transaction Finishes minus
  delete_points_lem s counter held ids shard dispatched small =
      let (changes, b, c, run, tracks) = delete_all_lem s.points counter held ids shard.tracks in
      let (indexes, sent) = dispatched changes in
      let kept = length-without_points ids held in
      let total : (length held + minus (length (held_ids ids held))) % 2 ^ 64
          ≡ length (without_points ids held) =
        omega (arith, kept) in
      let (internal, finished, opened, counted, w) =
        finish_lem s.internal c _ (length held) (minus (length (held_ids ids held)))
          shard.internal_writable shard.counted (omega (arith, kept, total)) tracks.free_key
          tracks.next_key tracks.bounded tracks.fresh in
      (
        record { points = b; internal = internal; indexes = indexes },
        record c { bucket = internal },
        rw (shard.opened, run, sent, finished) refl,
        record {
          opened = opened;
          tracks = Tracks-bucket b c internal (without_points ids held) tracks;
          counted = counted ∙ ap ok total;
          internal_writable = w;
        },
      )
