-- ===== src/Base/Result.antt =====
-- The outcome of a Go call: a value, an error, or a run-time panic. Errors that the callers tell
-- apart, or that a test names, have constructors of their own; wrapping by `fmt.Errorf` keeps them.
use mathlib.Core.Option.{Option, none, some}
use mathlib.Core.Path.{ap, refl, ◌≡◌}
use native.Mathlib.Omega.{arith}

pub data Error : Type 0 where
  read_only not_found point_does_not_exist point_exists duplicate_point : Error
  negative_count shard_unavailable create_failed no_neighbours : Error
  collection_exists quota_reached timed_out other : Error

pub data Result {κ} (A : Type κ) : Type κ where
  panic : Result A
  err : Error → Result A
  ok : A → Result A

infixl 5 ◌>>=◌
abbrev pub ◌>>=◌ {κ μ} : {B : Type μ} {A : Type κ} → Result A → (A → Result B) → Result B
panic >>= next = panic
err failure >>= next = err failure
ok value >>= next = next value

-- a read that panics when it finds nothing
abbrev pub or_panic {ℓ} : {A : Type ℓ} → Option A → Result A
or_panic none = panic
or_panic (some a) = ok a

-- a chain that succeeds, in its two parts
pub bind_ok {κ μ} :
    {A : Type κ} {B : Type μ} (r : Result A) (next : A → Result B) (b : B)
    → (r >>= next) ≡ ok b
    → (a : A) × (r ≡ ok a) × (next a ≡ ok b)
bind_ok panic next b e = absurd (ground arith)
bind_ok (err failure) next b e = absurd (ground arith)
bind_ok (ok a) next b e = (a, refl, e)

-- the value of an outcome, or another where there is none
abbrev pub ok_or {κ} : {A : Type κ} → A → Result A → A
ok_or a panic = a
ok_or a (err failure) = a
ok_or a (ok b) = b

pub ok_injective {κ} : {A : Type κ} (a b : A) → ok a ≡ ok b → a ≡ b
ok_injective a b e = ap (ok_or a) e
