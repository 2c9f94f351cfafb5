-- ===== src/Inverted/Sortable/Tests.antt =====
-- Numbers on both sides of zero, and the negative zero.
use semadb.Base.{arith, refl, some, true, ◌-◌, ◌^◌, ◌≡◌}
use semadb.Base.Float.{float64_lt, is_nan64, rank64, sign64}
use semadb.Diskstore.Order.{bytes_lt}
use semadb.Inverted.Sortable.{
  Invertable, be_bytes, be_read, be_value, flip_all, flip_sign, float64, float64_bits,
  float64_from_bits, float64_kind, from_byte_sortable, is_not_negative, map_read, to_byte_sortable,
}
use semadb.Inverted.Sortable.Ordered.{
  IsPlain, is_same_kind, kind_of, sortable_round_trip, to_byte_sortable_order, value_lt,
}

-- The negative zero is written as the smallest bytes of all, and what is read back is not a number.
negative_zero :
    from_byte_sortable float64_kind (to_byte_sortable (float64 sign64))
    ≡ some (float64 (2 ^ 64 - 1))
unfolding from_byte_sortable to_byte_sortable float64_bits float64_from_bits is_not_negative
    flip_sign flip_all map_read be_bytes be_read be_value is_nan64
negative_zero = refl

not_a_number : is_nan64 (2 ^ 64 - 1) ≡ true
unfolding is_nan64
not_a_number = refl

-- -1.0 and 2.0
abbrev minus_one : Invertable
minus_one = float64 0xbff0000000000000

abbrev two : Invertable
two = float64 0x4000000000000000

minus_one-IsPlain : IsPlain minus_one
unfolding IsPlain is_nan64
minus_one-IsPlain = (omega arith, refl, omega arith)

two-IsPlain : IsPlain two
unfolding IsPlain is_nan64
two-IsPlain = (omega arith, refl, omega arith)

to_byte_sortable_order_example :
    bytes_lt (to_byte_sortable minus_one) (to_byte_sortable two) ≡ value_lt minus_one two
unfolding is_same_kind
to_byte_sortable_order_example =
    to_byte_sortable_order minus_one two minus_one-IsPlain two-IsPlain refl

below : value_lt minus_one two ≡ true
unfolding value_lt float64_lt is_nan64 rank64
below = refl

sortable_round_trip_example :
    from_byte_sortable (kind_of minus_one) (to_byte_sortable minus_one) ≡ some minus_one
sortable_round_trip_example = sortable_round_trip minus_one minus_one-IsPlain
