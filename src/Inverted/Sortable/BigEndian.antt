-- ===== src/Inverted/Sortable/BigEndian.antt =====
-- Big-endian bytes are ordered as the numbers are, and are read back.
use semadb.Base.{
  [], arith, if◌then◌else◌, length, length-append, ltb, refl, suc, zero, ℕ, ◌%◌, ◌&&◌, ◌*◌, ◌+◌,
  ◌/◌, ◌<◌, ◌==◌, ◌≡◌, ◌++◌, ◌∷◌, ◌∙◌, sym,
}
use semadb.Conversion.{Bytes, pow256}
use semadb.Diskstore.Order.{bytes_eq, bytes_lt}
use semadb.Inverted.Sortable.{be_bytes, be_value}

pub length-be_bytes : (n x : ℕ) → length (be_bytes n x) ≡ n
unfolding be_bytes
length-be_bytes zero x = refl
length-be_bytes (suc n) x =
    omega
      (arith, length-append (be_bytes n (x / 256)) ((x % 256) ∷ []), length-be_bytes n (x / 256))

bytes_eq-snoc :
    (a b : Bytes) (x y : ℕ)
    → length a ≡ length b
    → bytes_eq (a ++ x ∷ []) (b ++ y ∷ []) ≡ (bytes_eq a b && x == y)
bytes_eq-snoc [] [] x y h = ground arith
bytes_eq-snoc (c ∷ a) (d ∷ b) x y h = ground (arith, bytes_eq-snoc a b x y (omega arith))
bytes_eq-snoc [] (d ∷ b) x y h = absurd (omega arith)
bytes_eq-snoc (c ∷ a) [] x y h = absurd (omega arith)

-- the first byte that differs decides, and the last bytes decide if the others are the same
bytes_lt-snoc :
    (a b : Bytes) (x y : ℕ)
    → length a ≡ length b
    → bytes_lt (a ++ x ∷ []) (b ++ y ∷ []) ≡ (if bytes_eq a b then ltb x y else bytes_lt a b)
unfolding bytes_lt
bytes_lt-snoc [] [] x y h = ground arith
bytes_lt-snoc (c ∷ a) (d ∷ b) x y h = ground (arith, bytes_lt-snoc a b x y (omega arith))
bytes_lt-snoc [] (d ∷ b) x y h = absurd (omega arith)
bytes_lt-snoc (c ∷ a) [] x y h = absurd (omega arith)

bytes_eq-be_bytes :
    (n x y : ℕ) → x < pow256 n → y < pow256 n → bytes_eq (be_bytes n x) (be_bytes n y) ≡ (x == y)
unfolding be_bytes
bytes_eq-be_bytes zero x y h k = ground arith
bytes_eq-be_bytes (suc n) x y h k =
    let sized : length (be_bytes n (x / 256)) ≡ length (be_bytes n (y / 256)) =
      length-be_bytes n (x / 256) ∙ sym (length-be_bytes n (y / 256)) in
    bytes_eq-snoc (be_bytes n (x / 256)) (be_bytes n (y / 256)) (x % 256) (y % 256) sized
    ∙ ground (arith, bytes_eq-be_bytes n (x / 256) (y / 256) (omega arith) (omega arith))

pub bytes_lt-be_bytes :
    (n x y : ℕ) → x < pow256 n → y < pow256 n → bytes_lt (be_bytes n x) (be_bytes n y) ≡ ltb x y
unfolding be_bytes bytes_lt
bytes_lt-be_bytes zero x y h k = ground arith
bytes_lt-be_bytes (suc n) x y h k =
    let sized : length (be_bytes n (x / 256)) ≡ length (be_bytes n (y / 256)) =
      length-be_bytes n (x / 256) ∙ sym (length-be_bytes n (y / 256)) in
    bytes_lt-snoc (be_bytes n (x / 256)) (be_bytes n (y / 256)) (x % 256) (y % 256) sized
    ∙ ground (
      arith,
      bytes_eq-be_bytes n (x / 256) (y / 256) (omega arith) (omega arith),
      bytes_lt-be_bytes n (x / 256) (y / 256) (omega arith) (omega arith),
    )

be_value-append : (high : ℕ) (a b : Bytes) → be_value high (a ++ b) ≡ be_value (be_value high a) b
unfolding be_value
be_value-append high [] b = refl
be_value-append high (x ∷ a) b = be_value-append (high * 256 + x) a b

pub be_value-be_bytes : (n x : ℕ) → x < pow256 n → be_value 0 (be_bytes n x) ≡ x
unfolding be_bytes be_value
be_value-be_bytes zero x h = omega arith
be_value-be_bytes (suc n) x h =
    be_value-append 0 (be_bytes n (x / 256)) ((x % 256) ∷ [])
    ∙ omega (arith, be_value-be_bytes n (x / 256) (omega arith))
