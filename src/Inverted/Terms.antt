-- ===== src/Inverted/Terms.antt =====
-- The constraint `Invertable` of shard/index/inverted/inverted.go as an interface: what the indexes use
-- of a type of terms, and its four instances, whose bytes are those of Inverted.Sortable. Go compares
-- floats by value, so that both zeros are one term and what is not a number is no term at all.
use semadb.Base.{
  Bool, Option, arith, not, refl, some, none, true, ℕ, ◌&&◌, ◌<◌, ◌==◌, ◌^◌, ◌≡◌, ◌≢◌, ◌↔◌, ap,
  false,
}
use semadb.Base.Float.{float64_lt, is_nan64, rank64, sign64}
use semadb.Conversion.{Bytes}
use semadb.Diskstore.Order.{bytes_eq, bytes_eq_iff, bytes_lt}
use semadb.Inverted.Sortable.{
  Invertable, float64, float64_kind, from_byte_sortable, int64, int64_kind, string, string_kind,
  to_byte_sortable, uint64, uint64_kind,
}
use semadb.Inverted.Sortable.Ordered.{
  IsPlain, int64_lt, is_same_kind, kind_of, sortable_round_trip, to_byte_sortable_order, value_lt,
}

-- `==` on the type, and `toByteSortable` and `fromByteSortable` at it
pub record Terms (T : Type 0) : Type 0 where
  pub same : T → T → Bool
  pub to_key : T → Bytes
  pub from_key : Bytes → Option T

-- what the indexes rely on, for the values of the type
pub record IsTerms {T : Type 0} (terms : Terms T) (IsValue : T → Type 0) (below : T → T → Bool)
    : Type 0 where
  pub same_sym : (v w : T) → terms.same v w ≡ true → terms.same w v ≡ true
  pub same_trans :
      (u v w : T) → terms.same u v ≡ true → terms.same v w ≡ true → terms.same u w ≡ true
  pub same_iff : (v w : T) → IsValue v → IsValue w → (terms.same v w ≡ true) ↔ (v ≡ w)
  pub from_key-to_key : (v : T) → IsValue v → terms.from_key (terms.to_key v) ≡ some v
  pub to_key_order :
      (v w : T) → IsValue v → IsValue w → bytes_lt (terms.to_key v) (terms.to_key w) ≡ below v w

-- the string or the number of a value
abbrev string_of : Option Invertable → Option Bytes
string_of (some (string s)) = some s
string_of _ = none

abbrev number_of : Option Invertable → Option ℕ
number_of (some (uint64 x)) = some x
number_of (some (int64 x)) = some x
number_of (some (float64 x)) = some x
number_of _ = none

abbrev pub string_terms : Terms Bytes
string_terms = record {
  same = bytes_eq;
  to_key = λ s. to_byte_sortable (string s);
  from_key = λ b. string_of (from_byte_sortable string_kind b);
}

abbrev pub uint64_terms : Terms ℕ
uint64_terms = record {
  same = ◌==◌;
  to_key = λ x. to_byte_sortable (uint64 x);
  from_key = λ b. number_of (from_byte_sortable uint64_kind b);
}

abbrev pub int64_terms : Terms ℕ
int64_terms = record {
  same = ◌==◌;
  to_key = λ x. to_byte_sortable (int64 x);
  from_key = λ b. number_of (from_byte_sortable int64_kind b);
}

-- `==` on float64
unfoldable pub float64_eq : ℕ → ℕ → Bool
float64_eq x y = not (is_nan64 x) && not (is_nan64 y) && rank64 x == rank64 y

abbrev pub float64_terms : Terms ℕ
float64_terms = record {
  same = float64_eq;
  to_key = λ x. to_byte_sortable (float64 x);
  from_key = λ b. number_of (from_byte_sortable float64_kind b);
}

abbrev IsUint64 : ℕ → Type 0
IsUint64 x = x < 2 ^ 64

-- a float64 that is a number, and not the negative zero
abbrev IsFloat64 : ℕ → Type 0
IsFloat64 x = (x < 2 ^ 64) × (is_nan64 x ≡ false) × (x ≢ sign64)

abbrev pub AnyBytes : Bytes → Type 0
AnyBytes s = Unit {0}

pub string_terms-IsTerms : IsTerms string_terms AnyBytes bytes_lt
unfolding value_lt IsPlain is_same_kind kind_of
string_terms-IsTerms = record {
  same_sym = λ v w h. ground (arith, bytes_eq_iff v w, bytes_eq_iff w v);
  same_trans = λ u v w h k. ground (arith, bytes_eq_iff u v, bytes_eq_iff v w, bytes_eq_iff u w);
  same_iff = λ v w a b. bytes_eq_iff v w;
  from_key-to_key = λ v h. ap string_of (sortable_round_trip (string v) tt);
  to_key_order = λ v w h k. to_byte_sortable_order (string v) (string w) tt tt refl;
}

pub uint64_terms-IsTerms : IsTerms uint64_terms IsUint64 (λ x y. value_lt (uint64 x) (uint64 y))
unfolding value_lt IsPlain is_same_kind kind_of
uint64_terms-IsTerms = record {
  same_sym = λ v w h. ground arith;
  same_trans = λ u v w h k. ground arith;
  same_iff = λ v w a b. ground arith;
  from_key-to_key = λ v h. ap number_of (sortable_round_trip (uint64 v) h);
  to_key_order = λ v w h k. to_byte_sortable_order (uint64 v) (uint64 w) h k refl;
}

pub int64_terms-IsTerms : IsTerms int64_terms IsUint64 int64_lt
unfolding value_lt IsPlain is_same_kind kind_of
int64_terms-IsTerms = record {
  same_sym = λ v w h. ground arith;
  same_trans = λ u v w h k. ground arith;
  same_iff = λ v w a b. ground arith;
  from_key-to_key = λ v h. ap number_of (sortable_round_trip (int64 v) h);
  to_key_order = λ v w h k. to_byte_sortable_order (int64 v) (int64 w) h k refl;
}

float64_eq_iff : (x y : ℕ) → IsFloat64 x → IsFloat64 y → (float64_eq x y ≡ true) ↔ (x ≡ y)
unfolding float64_eq rank64
float64_eq_iff x y (hx, nx, zx) (hy, ny, zy) = rw (nx, ny) (ground arith)

pub float64_terms-IsTerms : IsTerms float64_terms IsFloat64 float64_lt
unfolding value_lt IsPlain is_same_kind kind_of float64_eq
float64_terms-IsTerms = record {
  same_sym = λ v w h. ground arith;
  same_trans = λ u v w h k. ground arith;
  same_iff = λ v w a b. float64_eq_iff v w a b;
  from_key-to_key = λ v h. ap number_of (sortable_round_trip (float64 v) h);
  to_key_order = λ v w h k. to_byte_sortable_order (float64 v) (float64 w) h k refl;
}
