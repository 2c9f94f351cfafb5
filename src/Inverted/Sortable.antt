-- ===== src/Inverted/Sortable.antt =====
-- shard/index/inverted/sortable.go: values as bytes that are ordered as the values are. A string is
-- its bytes, a uint64 a number below 2 ^ 64, and an int64 and a float64 are their 64-bit patterns.
pub mod BigEndian
pub mod Ordered
mod Tests
use semadb.Base.{
  Bool, List, Option, [], false, if◌then◌else◌, leb, length, ltb, none, not, some, suc, take, true,
  zero, ℕ, ◌&&◌, ◌%◌, ◌*◌, ◌+◌, ◌-◌, ◌/◌, ◌==◌, ◌^◌, ◌||◌, ◌++◌, ◌∷◌,
}
use semadb.Base.Float.{is_nan64, sign64}
use semadb.Conversion.{Bytes}

-- the constraint `Invertable`, with a value
pub data Invertable : Type 0 where
  string : Bytes → Invertable
  uint64 int64 float64 : ℕ → Invertable

-- a type of the constraint
pub data Kind : Type 0 where
  string_kind uint64_kind int64_kind float64_kind : Kind

-- `binary.BigEndian.PutUint64` (8 bytes)
pub be_bytes : ℕ → ℕ → Bytes
be_bytes zero x = []
be_bytes (suc n) x = be_bytes n (x / 256) ++ (x % 256) ∷ []

-- the number that a big-endian slice stands for, behind the digits that were read
pub be_value : ℕ → Bytes → ℕ
be_value high [] = high
be_value high (b ∷ bs) = be_value (high * 256 + b) bs

-- `binary.BigEndian.Uint64(b)`: the first eight bytes, which must be there
pub be_read : Bytes → Option ℕ
be_read b = if ltb (length b) 8 then none else some (be_value 0 (take 8 b))

-- `^ 0x8000000000000000` and `^ math.MinInt64`: the highest bit is changed
pub flip_sign : ℕ → ℕ
flip_sign x = if ltb x sign64 then x + sign64 else x - sign64

-- `^ 0xffffffffffffffff`
pub flip_all : ℕ → ℕ
flip_all x = 2 ^ 64 - 1 - x

-- `v >= 0` on a float64: both zeros pass, what is not a number does not
pub is_not_negative : ℕ → Bool
is_not_negative x = not (is_nan64 x) && (ltb x sign64 || x == sign64)

pub float64_bits : ℕ → ℕ
float64_bits x = if is_not_negative x then flip_sign x else flip_all x

unfoldable pub to_byte_sortable : Invertable → Bytes
to_byte_sortable (string s) = s
to_byte_sortable (uint64 x) = be_bytes 8 x
to_byte_sortable (int64 x) = be_bytes 8 (flip_sign x)
to_byte_sortable (float64 x) = be_bytes 8 (float64_bits x)

-- the sign bit tells how the pattern was changed
pub float64_from_bits : ℕ → ℕ
float64_from_bits x = if leb sign64 x then flip_sign x else flip_all x

-- `none` is an index out of range
pub map_read : (ℕ → Invertable) → Option ℕ → Option Invertable
map_read f none = none
map_read f (some x) = some (f x)

pub from_byte_sortable : Kind → Bytes → Option Invertable
from_byte_sortable string_kind b = some (string b)
from_byte_sortable uint64_kind b = map_read uint64 (be_read b)
from_byte_sortable int64_kind b = map_read (λ x. int64 (flip_sign x)) (be_read b)
from_byte_sortable float64_kind b = map_read (λ x. float64 (float64_from_bits x)) (be_read b)
