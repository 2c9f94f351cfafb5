-- ===== src/Base/Float.antt =====
-- IEEE 754 numbers as bit patterns: the order `<` of float32 and float64. A pattern below the sign bit
-- is positive, and the patterns above infinity are not numbers.
use Prim.Native.Nat.{ℕ, ◌%◌, ◌+◌, ◌-◌, ◌<◌, ◌^◌, ◌≤◌}
use mathlib.Core.Path.{◌≡◌}
use mathlib.Core.Bool.{Bool, false, not, true, ◌&&◌}
use native.Mathlib.Omega.{arith}
use semadb.Base.Checks.{ltb, if◌then◌else◌}

abbrev pub sign32 : ℕ
sign32 = 2 ^ 31

abbrev pub infinity32 : ℕ
infinity32 = 0x7f800000

unfoldable pub is_nan32 : ℕ → Bool
is_nan32 a = ltb infinity32 (a % sign32)

-- where a number stands in the order; both zeros stand at `sign32`
unfoldable pub rank32 : ℕ → ℕ
rank32 a = if ltb a sign32 then sign32 + a else sign32 + sign32 - a

-- `a < b`: false if either is not a number
unfoldable pub float32_lt : ℕ → ℕ → Bool
unfolding is_nan32 rank32
float32_lt a b = not (is_nan32 a) && not (is_nan32 b) && ltb (rank32 a) (rank32 b)

-- a float32 that is a number
abbrev pub IsNumber32 : ℕ → Type 0
IsNumber32 a = is_nan32 a ≡ false

pub float32_lt-true : (a b : ℕ) → float32_lt a b ≡ true → rank32 a < rank32 b
unfolding float32_lt
float32_lt-true a b h = ground arith

pub float32_lt-false :
    (a b : ℕ) → IsNumber32 a → IsNumber32 b → float32_lt a b ≡ false → rank32 b ≤ rank32 a
unfolding float32_lt
float32_lt-false a b na nb h = ground arith

abbrev pub sign64 : ℕ
sign64 = 2 ^ 63

abbrev pub infinity64 : ℕ
infinity64 = 0x7ff0000000000000

unfoldable pub is_nan64 : ℕ → Bool
is_nan64 a = ltb infinity64 (a % sign64)

unfoldable pub rank64 : ℕ → ℕ
rank64 a = if ltb a sign64 then sign64 + a else sign64 + sign64 - a

unfoldable pub float64_lt : ℕ → ℕ → Bool
unfolding is_nan64 rank64
float64_lt a b = not (is_nan64 a) && not (is_nan64 b) && ltb (rank64 a) (rank64 b)
