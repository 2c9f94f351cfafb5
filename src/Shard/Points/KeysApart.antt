-- ===== src/Shard/Points/KeysApart.antt =====
-- No two keys of the points bucket coincide.
use semadb.Base.{arith, false, refl, ℕ, [], ◌&&◌, ◌++◌, ◌<◌, ◌==◌, ◌^◌, ◌∷◌, ◌≡◌, ◌≢◌}
use semadb.Conversion.{Bytes, node_key}
use semadb.Conversion.Keys.{node_key-cons, node_key_injective}
use semadb.Diskstore.Order.{bytes_eq, bytes_eq_iff}
use semadb.Shard.Points.{point_key}

pub node_keys :
    (i s j t : ℕ)
    → i < 2 ^ 64
    → j < 2 ^ 64
    → bytes_eq (node_key i s) (node_key j t) ≡ (i == j && s == t)
node_keys i s j t h k =
    ground (arith, bytes_eq_iff (node_key i s) (node_key j t), node_key_injective i s j t h k)

snoc_eq : (u w : Bytes) (s : ℕ) → bytes_eq (u ++ s ∷ []) (w ++ s ∷ []) ≡ bytes_eq u w
snoc_eq [] [] s = ground arith
snoc_eq [] (y ∷ []) s = ground arith
snoc_eq [] (y ∷ z ∷ w) s = ground arith
snoc_eq (x ∷ []) [] s = ground arith
snoc_eq (x ∷ z ∷ u) [] s = ground arith
snoc_eq (x ∷ u) (y ∷ w) s = ground (arith, snoc_eq u w s)

pub point_keys : (u w : Bytes) (s : ℕ) → bytes_eq (point_key u s) (point_key w s) ≡ bytes_eq u w
unfolding point_key
point_keys u w s = snoc_eq u w s

pub point_node_keys : (u : Bytes) (s j t : ℕ) → bytes_eq (point_key u s) (node_key j t) ≡ false
unfolding point_key
point_node_keys u s j t = rw (node_key-cons j t).1 refl

pub node_point_keys :
    (j t : ℕ) (u : Bytes) (s : ℕ) → bytes_eq (node_key j t) (point_key u s) ≡ false
unfolding point_key
node_point_keys j t u s = rw (node_key-cons j t).1 refl

-- the same in the forms that the reads of a bucket ask for
pub other_node_key :
    (i j s t : ℕ) → i < 2 ^ 64 → j < 2 ^ 64 → i ≢ j → bytes_eq (node_key i s) (node_key j t) ≡ false
other_node_key i j s t h k e = ground (arith, node_keys i s j t h k)

pub other_suffix : (i s t : ℕ) → i < 2 ^ 64 → s ≢ t → bytes_eq (node_key i s) (node_key i t) ≡ false
other_suffix i s t h e = ground (arith, node_keys i s i t h h)

pub other_point_key :
    (u w : Bytes) (s : ℕ) → u ≢ w → bytes_eq (point_key u s) (point_key w s) ≡ false
other_point_key u w s e = ground (arith, point_keys u w s, bytes_eq_iff u w)
