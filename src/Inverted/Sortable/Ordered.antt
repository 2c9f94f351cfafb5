-- ===== src/Inverted/Sortable/Ordered.antt =====
-- The order of the bytes is the order of the values, and a value is read back from its bytes.
use semadb.Base.{
  Bool, Bool-cases, arith, false, if◌then◌else◌, inl, inr, ltb, refl, some, take_of_length-le, true,
  ℕ, ◌&&◌, ◌<◌, ◌^◌, ◌||◌, ◌≡◌, ◌≢◌, ◌∙◌, ap,
}
use semadb.Base.Float.{float64_lt, is_nan64, rank64, sign64}
use semadb.Diskstore.Order.{bytes_lt}
use semadb.Inverted.Sortable.{
  Invertable, Kind, be_bytes, be_read, flip_all, flip_sign, float64, float64_bits,
  float64_from_bits, float64_kind, from_byte_sortable, int64, int64_kind, is_not_negative, map_read,
  string, string_kind, to_byte_sortable, uint64, uint64_kind,
}
use semadb.Inverted.Sortable.BigEndian.{be_value-be_bytes, bytes_lt-be_bytes, length-be_bytes}

unfoldable pub kind_of : Invertable → Kind
kind_of (string s) = string_kind
kind_of (uint64 x) = uint64_kind
kind_of (int64 x) = int64_kind
kind_of (float64 x) = float64_kind

-- the order of two's complement patterns: those with the sign bit come first
unfoldable pub int64_lt : ℕ → ℕ → Bool
int64_lt x y = if ltb x sign64 then ltb y sign64 && ltb x y else ltb y sign64 || ltb x y

-- the order of values of one type
unfoldable pub value_lt : Invertable → Invertable → Bool
value_lt (string s) (string t) = bytes_lt s t
value_lt (uint64 x) (uint64 y) = ltb x y
value_lt (int64 x) (int64 y) = int64_lt x y
value_lt (float64 x) (float64 y) = float64_lt x y
value_lt _ _ = false

-- a value of its type; a float64 that is a number, and not the negative zero
unfoldable pub IsPlain : Invertable → Type 0
IsPlain (string s) = Unit {0}
IsPlain (uint64 x) = x < 2 ^ 64
IsPlain (int64 x) = x < 2 ^ 64
IsPlain (float64 x) = (x < 2 ^ 64) × (is_nan64 x ≡ false) × (x ≢ sign64)

unfoldable pub is_same_kind : Invertable → Invertable → Bool
is_same_kind (string s) (string t) = true
is_same_kind (uint64 x) (uint64 y) = true
is_same_kind (int64 x) (int64 y) = true
is_same_kind (float64 x) (float64 y) = true
is_same_kind _ _ = false

flip_sign-lt : (x : ℕ) → x < 2 ^ 64 → flip_sign x < 2 ^ 64
unfolding flip_sign
flip_sign-lt x h = ground arith

flip_sign_order :
    (x y : ℕ) → x < 2 ^ 64 → y < 2 ^ 64 → ltb (flip_sign x) (flip_sign y) ≡ int64_lt x y
unfolding flip_sign int64_lt
flip_sign_order x y h k = ground arith

float64_bits-lt : (x : ℕ) → x < 2 ^ 64 → float64_bits x < 2 ^ 64
unfolding float64_bits flip_sign flip_all is_not_negative
float64_bits-lt x h = ground arith

float64_bits_order :
    (x y : ℕ)
    → IsPlain (float64 x)
    → IsPlain (float64 y)
    → ltb (float64_bits x) (float64_bits y) ≡ float64_lt x y
unfolding float64_bits flip_sign flip_all is_not_negative rank64 float64_lt IsPlain
float64_bits_order x y h k =
    let (hx, nx, zx) = h in
    let (hy, ny, zy) = k in
    rw (nx, ny)
      (elim (Bool-cases (ltb x sign64)) [
        | inl px ↦ elim (Bool-cases (ltb y sign64)) [
          | inl py ↦ rw (px, py) (ground arith)
          | inr my ↦ rw (px, my) (ground arith)
        ]
        | inr mx ↦ elim (Bool-cases (ltb y sign64)) [
          | inl py ↦ rw (mx, py) (ground arith)
          | inr my ↦ rw (mx, my) (ground arith)
        ]
      ])

-- Of two values of one type, which are of its size and, as a float64, a number other than the negative
-- zero, the bytes of the one come before those of the other exactly if its value is below the other's.
pub to_byte_sortable_order :
    (v w : Invertable)
    → IsPlain v
    → IsPlain w
    → is_same_kind v w ≡ true
    → bytes_lt (to_byte_sortable v) (to_byte_sortable w) ≡ value_lt v w
unfolding to_byte_sortable value_lt IsPlain is_same_kind
to_byte_sortable_order (string s) (string t) h k same = refl
to_byte_sortable_order (uint64 x) (uint64 y) h k same = bytes_lt-be_bytes 8 x y h k
to_byte_sortable_order (int64 x) (int64 y) h k same =
    bytes_lt-be_bytes 8 (flip_sign x) (flip_sign y) (flip_sign-lt x h) (flip_sign-lt y k)
    ∙ flip_sign_order x y h k
to_byte_sortable_order (float64 x) (float64 y) h k same =
    bytes_lt-be_bytes 8 (float64_bits x) (float64_bits y) (float64_bits-lt x h.0)
      (float64_bits-lt y k.0)
    ∙ float64_bits_order x y h k
to_byte_sortable_order (string s) (uint64 y) h k same = cc
to_byte_sortable_order (string s) (int64 y) h k same = cc
to_byte_sortable_order (string s) (float64 y) h k same = cc
to_byte_sortable_order (uint64 x) (string t) h k same = cc
to_byte_sortable_order (uint64 x) (int64 y) h k same = cc
to_byte_sortable_order (uint64 x) (float64 y) h k same = cc
to_byte_sortable_order (int64 x) (string t) h k same = cc
to_byte_sortable_order (int64 x) (uint64 y) h k same = cc
to_byte_sortable_order (int64 x) (float64 y) h k same = cc
to_byte_sortable_order (float64 x) (string t) h k same = cc
to_byte_sortable_order (float64 x) (uint64 y) h k same = cc
to_byte_sortable_order (float64 x) (int64 y) h k same = cc

be_read-be_bytes : (x : ℕ) → x < 2 ^ 64 → be_read (be_bytes 8 x) ≡ some x
unfolding be_read
be_read-be_bytes x h =
    let sized = length-be_bytes 8 x in
    rw (be_read, sized, take_of_length-le 8 (be_bytes 8 x) (omega (arith, sized)))
      (ap some (be_value-be_bytes 8 x h))

flip_sign_twice : (x : ℕ) → x < 2 ^ 64 → flip_sign (flip_sign x) ≡ x
unfolding flip_sign
flip_sign_twice x h = ground arith

float64_from_bits-float64_bits :
    (x : ℕ) → IsPlain (float64 x) → float64_from_bits (float64_bits x) ≡ x
unfolding float64_from_bits float64_bits flip_sign flip_all is_not_negative IsPlain
float64_from_bits-float64_bits x (h, n, z) = elim (Bool-cases (ltb x sign64)) [
  | inl positive ↦ ground arith
  | inr negative ↦ ground arith
]

-- A value of its size, which is a number other than the negative zero if it is a float64, is read back
-- from its bytes.
pub sortable_round_trip :
    (v : Invertable) → IsPlain v → from_byte_sortable (kind_of v) (to_byte_sortable v) ≡ some v
unfolding from_byte_sortable to_byte_sortable kind_of map_read IsPlain
sortable_round_trip (string s) h = refl
sortable_round_trip (uint64 x) h = rw (be_read-be_bytes x h) refl
sortable_round_trip (int64 x) h =
    rw (be_read-be_bytes (flip_sign x) (flip_sign-lt x h), flip_sign_twice x h) refl
sortable_round_trip (float64 x) h =
    rw
      (
        be_read-be_bytes (float64_bits x) (float64_bits-lt x h.0),
        float64_from_bits-float64_bits x h,
      )
      refl
