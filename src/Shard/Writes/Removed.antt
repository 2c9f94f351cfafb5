-- ===== src/Shard/Writes/Removed.antt =====
-- The deletion of one point: the bucket and the counter know the others.
use semadb.Base.{
  All, Bool-cases, List, Option, [], ap, arith, elem, false, inl, inr, none, refl, some, subst, sym,
  ◌<◌, ◌^◌, ◌∙◌, ◌∷◌, ◌≡◌, ◌≢◌,
}
use semadb.Base.Result.{Result, ok}
use semadb.Conversion.{Bytes}
use semadb.Diskstore
use semadb.Diskstore.{MemBucket}
use semadb.Diskstore.Order.{bytes_eq, bytes_eq_iff, bytes_eq_refl}
use semadb.Shard.IdCounter.{IdCounter, free_id}
use semadb.Shard.IdCounter.Fresh.{IsFresh}
use semadb.Shard.IdCounter.Freed.{free_id-without_id, gone-without_id}
use semadb.Shard.Points.{ShardPoint, is_some, get_point_by_uuid, point_key}
use semadb.Shard.Points.Holds.{
  Holds, after_delete-keeps, after_delete_point, after_delete_point-writable, delete_point-after,
  get-after_delete_point, gone_uuid,
}
use semadb.Shard.Points.Stored.{get_point_by_uuid-Holds, get_point_by_uuid-none}
use semadb.Shard.Writes.{IndexPointChange, delete_found, delete_one}
use semadb.Shard.Writes.Picked.{
  All-without_point, UniqueIds-without_point, is_held-without_point, pick, without_none,
  without_point,
}
use semadb.Shard.Writes.Tracked.{Tracks, is_held, node_ids}

-- the others are as they were
Holds-after_delete :
    (b : MemBucket) (p : ShardPoint) (rest : List ShardPoint)
    → p.node_id < 2 ^ 64
    → is_held p.id rest ≡ false
    → elem p.node_id (node_ids rest) ≡ false
    → All (λ q. q.node_id < 2 ^ 64) rest
    → All (Holds b) rest
    → All (Holds (after_delete_point b p.id p.node_id)) rest
Holds-after_delete b p [] fits apart other f h = tt
Holds-after_delete b p (q ∷ rest) fits apart other f h =
    let other_id : p.id ≢ q.id = λ e. ground (arith, bytes_eq_iff q.id p.id, sym e) in
    let other_node : p.node_id ≢ q.node_id = λ e. ground arith in
    (
      after_delete-keeps b p fits q f.0 other_id other_node h.0,
      Holds-after_delete b p rest fits (ground arith) (ground arith) f.1 h.1,
    )

abbrev pub Deletes :
    IdCounter
    → Bytes
    → List ShardPoint
    → Result (Option IndexPointChange × MemBucket × IdCounter)
    → Type 0
Deletes c u held r =
    (change : Option IndexPointChange) × (b' : MemBucket) × (c' : IdCounter) × (r
      ≡ ok (change, b', c'))
    × (is_some change ≡ is_held u held)
    × Tracks b' c' (without_point u held)

pub delete_one_lem :
    (b : MemBucket) (c : IdCounter) (held : List ShardPoint) (u : Bytes)
    → Tracks b c held
    → Deletes c u held (delete_one b c u)
unfolding delete_one delete_found free_id
delete_one_lem b c held u t = elim (Bool-cases (is_held u held)) [
  | inr new ↦ (
    none,
    b,
    c,
    rw (get_point_by_uuid-none b u (t.absent u new)) refl,
    sym new,
    subst (Tracks b c) (sym (without_none u held new)) t,
  )
  | inl known ↦
      let (p, equal, holds, fits, inside, nodes) =
        pick b u held known t.holds t.fits t.fresh.used_distinct in
      let rest = without_point u held in
      let apart : is_held u rest ≡ false =
        is_held-without_point u u held t.unique ∙ ground (arith, bytes_eq_refl u) in
      let apart' : is_held p.id rest ≡ false = ap (λ i. is_held i rest) equal ∙ apart in
      let other : elem p.node_id (node_ids rest) ≡ false =
        ap (elem p.node_id) nodes
        ∙ gone-without_id p.node_id (node_ids held) t.fresh.used_distinct in
      let found : get_point_by_uuid b u ≡ ok p =
        ap (get_point_by_uuid b) (sym equal) ∙ get_point_by_uuid-Holds b p fits holds in
      let change : IndexPointChange = record {
        node_id = p.node_id;
        previous_data = p.payload;
        new_data = [];
      } in
      (
        some change,
        after_delete_point b p.id p.node_id,
        free_id c p.node_id,
        rw (found, ← equal, delete_point-after b p.id p.node_id t.writable) refl,
        sym known,
        record {
          writable = after_delete_point-writable b p.id p.node_id ∙ t.writable;
          holds =
              Holds-after_delete b p rest fits apart' other
                (All-without_point (λ q. q.node_id < 2 ^ 64) u held t.fits)
                (All-without_point (Holds b) u held t.holds);
          fits = All-without_point (λ q. q.node_id < 2 ^ 64) u held t.fits;
          fresh =
              subst (IsFresh (free_id c p.node_id)) (sym nodes)
                (free_id-without_id c p.node_id (node_ids held) t.fresh inside);
          unique = UniqueIds-without_point u held t.unique;
          bounded = t.bounded;
          free_key = t.free_key;
          next_key = t.next_key;
          absent = λ w h. elim (Bool-cases (bytes_eq p.id w)) [
            | inl same ↦
                ap (λ i. Diskstore.get (after_delete_point b p.id p.node_id) (point_key i b'i'))
                  (sym ((bytes_eq_iff p.id w).0 same))
                ∙ gone_uuid b p fits
            | inr differ ↦
                let apart_w : p.id ≢ w = λ e. ground (arith, bytes_eq_iff p.id w) in
                let same_u : bytes_eq u w ≡ false = ap (λ i. bytes_eq i w) (sym equal) ∙ differ in
                get-after_delete_point b p.id p.node_id w apart_w
                ∙ t.absent w (ground (arith, is_held-without_point u w held t.unique))
          ];
        },
      )
]
