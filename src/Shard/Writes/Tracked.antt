-- ===== src/Shard/Writes/Tracked.antt =====
-- The points that a shard holds, against its points bucket and its counter: what an insertion and a
-- deletion of one point make of them.
use semadb.Base.{
  All, Bool, List, [], arith, elem, false, length, none, refl, sym, ℕ, ◌+◌, ◌||◌, ◌<◌, ◌≤◌, ◌^◌,
  ◌∙◌, ◌∷◌, ◌≡◌, ◌≢◌, ap,
}
use semadb.Base.Result.{Result, ok}
use semadb.Conversion.{Bytes}
use semadb.Diskstore
use semadb.Diskstore.{MemBucket}
use semadb.Diskstore.Order.{bytes_eq, bytes_eq_comm, bytes_eq_iff}
use semadb.Shard.IdCounter.{IdCounter, next_id}
use semadb.Shard.IdCounter.Fresh.{IsFresh, next_id-IsFresh, next_id-next}
use semadb.Shard.Points.{Point, ShardPoint, check_point_exists, point_key}
use semadb.Shard.Points.Holds.{
  Holds, after_set, after_set-Holds, after_set-keeps, after_set-writable, get-after_set,
  set_point-after_set,
}
use semadb.Shard.Writes.{
  IndexPointChange, free_node_ids_key, has_duplicates, has_id, insert_all, insert_one,
  next_free_node_id_key,
}

abbrev pub node_ids : List ShardPoint → List ℕ
node_ids [] = []
node_ids (p ∷ held) = p.node_id ∷ node_ids held

abbrev pub is_held : Bytes → List ShardPoint → Bool
is_held u [] = false
is_held u (p ∷ held) = bytes_eq p.id u || is_held u held

-- no UUID stands twice
abbrev pub UniqueIds : List ShardPoint → Type 0
UniqueIds [] = Unit
UniqueIds (p ∷ held) = (is_held p.id held ≡ false) × UniqueIds held

-- The bucket and the counter know exactly the points of the list.
pub record Tracks (b : MemBucket) (c : IdCounter) (held : List ShardPoint) : Type 0 where
  pub writable : b.is_read_only ≡ false
  pub holds : All (Holds b) held
  pub fits : All (λ p. p.node_id < 2 ^ 64) held
  pub fresh : IsFresh c (node_ids held)
  pub unique : UniqueIds held
  pub bounded : c.next_free_id < 2 ^ 64
  pub free_key : c.free_ids_key ≡ free_node_ids_key
  pub next_key : c.next_free_id_key ≡ next_free_node_id_key
  pub absent : (u : Bytes) → is_held u held ≡ false → Diskstore.get b (point_key u b'i') ≡ none

-- a point that is set leaves the points of other UUIDs and nodes
Holds-after :
    (b : MemBucket) (p : ShardPoint) (held : List ShardPoint)
    → p.node_id < 2 ^ 64
    → is_held p.id held ≡ false
    → elem p.node_id (node_ids held) ≡ false
    → All (λ q. q.node_id < 2 ^ 64) held
    → All (Holds b) held
    → All (Holds (after_set b p)) held
Holds-after b p [] fits new_id new_node f h = tt
Holds-after b p (q ∷ held) fits new_id new_node f h =
    let other_id : p.id ≢ q.id = λ e. ground (arith, bytes_eq_iff q.id p.id, sym e) in
    let other_node : p.node_id ≢ q.node_id = λ e. ground arith in
    (
      after_set-keeps b p fits q f.0 other_id other_node h.0,
      Holds-after b p held fits (ground arith) (ground arith) f.1 h.1,
    )

abbrev Inserts :
    MemBucket
    → IdCounter
    → List ShardPoint
    → Point
    → Result (IndexPointChange × MemBucket × IdCounter)
    → Type 0
Inserts b c held p r =
    (id : ℕ) × (b' : MemBucket) × (c' : IdCounter) × (r
      ≡ ok (record { node_id = id; previous_data = []; new_data = p.payload }, b', c'))
    × Tracks b' c' (record { point = p; node_id = id } ∷ held)
    × (c'.next_free_id ≤ c.next_free_id + 1)

pub insert_one_lem :
    (b : MemBucket) (c : IdCounter) (held : List ShardPoint) (p : Point)
    → Tracks b c held
    → is_held p.id held ≡ false
    → c.next_free_id + 1 < 2 ^ 64
    → Inserts b c held p (insert_one b c p)
unfolding insert_one check_point_exists
insert_one_lem b c held p t new bound =
    let (apart, low, high, fresh') = next_id-IsFresh c (node_ids held) t.fresh bound in
    let sp : ShardPoint = record { point = p; node_id = (next_id c).0 } in
    let (raised, same_free, same_next) = next_id-next c in
    let fits : sp.node_id < 2 ^ 64 = omega (arith, fresh'.used_bounds.0.1) in
    (
      (next_id c).0,
      after_set b sp,
      (next_id c).1,
      rw (t.absent p.id new, set_point-after_set b sp t.writable) refl,
      record {
        writable = after_set-writable b sp t.writable;
        holds = (after_set-Holds b sp fits, Holds-after b sp held fits new apart t.fits t.holds);
        fits = (fits, t.fits);
        fresh = fresh';
        unique = (new, t.unique);
        bounded = omega arith;
        free_key = same_free ∙ t.free_key;
        next_key = same_next ∙ t.next_key;
        absent = λ u h.
            let other : sp.id ≢ u = λ e. ground (arith, bytes_eq_iff sp.id u) in
            get-after_set b sp u other ∙ t.absent u (ground arith);
      },
      raised,
    )

-- no point of a request is held
abbrev pub AreNew : List Point → List ShardPoint → Type 0
AreNew points held = All (λ p. is_held p.id held ≡ false) points

abbrev pub points_of : List ShardPoint → List Point
points_of [] = []
points_of (p ∷ held) = p.point ∷ points_of held

-- the points in front of those that are held, the first of them last
abbrev pub hold_all : List ShardPoint → List ShardPoint → List ShardPoint
hold_all [] held = held
hold_all (p ∷ new) held = hold_all new (p ∷ held)

AreNew-cons :
    (p : ShardPoint) (points : List Point) (held : List ShardPoint)
    → has_id p.id points ≡ false
    → AreNew points held
    → AreNew points (p ∷ held)
unfolding has_id
AreNew-cons p [] held d n = tt
AreNew-cons p (q ∷ points) held d n =
    (ground (arith, bytes_eq_comm p.id q.id), AreNew-cons p points held (ground arith) n.1)

abbrev InsertsAll :
    MemBucket
    → IdCounter
    → List ShardPoint
    → List Point
    → Result (List IndexPointChange × MemBucket × IdCounter)
    → Type 0
InsertsAll b c held points r =
    (changes : List IndexPointChange) × (b' : MemBucket) × (c' : IdCounter) × (new : List
      ShardPoint)
    × (r ≡ ok (changes, b', c'))
    × (points_of new ≡ points)
    × Tracks b' c' (hold_all new held)

pub insert_all_lem :
    (b : MemBucket) (c : IdCounter) (held : List ShardPoint) (points : List Point)
    → Tracks b c held
    → has_duplicates points ≡ false
    → AreNew points held
    → c.next_free_id + length points < 2 ^ 64
    → InsertsAll b c held points (insert_all b c points)
unfolding insert_all has_duplicates
insert_all_lem b c held [] t d n bound = ([], b, c, [], refl, refl, t)
insert_all_lem b c held (p ∷ points) t d n bound =
    let (id, b1, c1, run1, t1, raised) = insert_one_lem b c held p t n.0 (omega arith) in
    let sp : ShardPoint = record { point = p; node_id = id } in
    let (changes, b2, c2, new, run2, same, t2) =
      insert_all_lem b1 c1 (sp ∷ held) points t1 (ground arith)
        (AreNew-cons sp points held (ground arith) n.1) (omega arith) in
    let change : IndexPointChange = record {
      node_id = id;
      previous_data = [];
      new_data = p.payload;
    } in
    (change ∷ changes, b2, c2, sp ∷ new, rw (run1, run2) refl, ap (◌∷◌ p) same, t2)
