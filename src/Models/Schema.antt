-- ===== src/Models/Schema.antt =====
-- `IndexSchema.Validate` and `IndexSchema.CheckCompatibleMap` of models/index.go. The conversions
-- between float types and from floats to integers are those of the hardware and a parameter. A map
-- of a client is changed only if the whole check succeeds; after an error nothing uses it.
pub mod Conforms
pub mod Compatible
mod Tests
use semadb.Base.{
  Bool, List, Option, [], false, if◌then◌else◌, length, ltb, none, some, true, ℕ, ◌+◌, ◌-◌, ◌==◌,
  ◌^◌, ◌||◌, ◌∷◌, map, ◌&&◌, not,
}
use semadb.Base.Assoc.{lookup}
use semadb.Base.Result.{Result, err, ok, other, ◌>>=◌}
use semadb.Conversion.{Bytes}
use semadb.Diskstore.Order.{bytes_key}
use semadb.Models.{
  DistanceMetric, IndexSchema, IndexSchemaValue, IndexType, PointAsMap, StringParameters,
  TextParameters, Value, Values, VectorFlatParameters, VectorVamanaParameters, anys, float32,
  float32s, float64, float64s, haversine, index_float, index_integer, index_string,
  index_string_array, index_text, index_vector_flat, index_vector_vamana, int, int32, int64,
  no_values, other_type, string_value, strings, uint, uint32, value_then,
}

unfoldable pub is_haversine : DistanceMetric → Bool
is_haversine haversine = true
is_haversine _ = false

-- nil parameters, and a size that the distance cannot take
unfoldable pub check_given {ℓ} : {A : Type ℓ} → Option A → Result (Unit {0})
check_given none = err other
check_given (some a) = ok tt

unfoldable pub check_flat : Option VectorFlatParameters → Result (Unit {0})
check_flat none = err other
check_flat (some p) =
    if is_haversine p.distance_metric && not (p.vector_size == 2) then err other else ok tt

unfoldable pub check_vamana : Option VectorVamanaParameters → Result (Unit {0})
check_vamana none = err other
check_vamana (some p) =
    if is_haversine p.distance_metric && not (p.vector_size == 2) then err other else ok tt

unfoldable pub validate_value : IndexType → IndexSchemaValue → Result (Unit {0})
validate_value index_vector_flat v = check_flat v.vector_flat
validate_value index_vector_vamana v = check_vamana v.vector_vamana
validate_value index_text v = check_given v.text
validate_value index_string v = check_given v.string
validate_value index_string_array v = check_given v.string_array
validate_value index_integer v = ok tt
validate_value index_float v = ok tt
validate_value (other_type name) v = err other

unfoldable pub validate : IndexSchema → Result (Unit {0})
validate [] = ok tt
validate ((k, v) ∷ s) = do _ ← validate_value v.kind v; validate s

-- The floats of the hardware: float64 to float32 and back, and floats to int64.
pub record FloatCasts : Type 0 where
  pub float32_of_float64 : ℕ → ℕ
  pub float64_of_float32 : ℕ → ℕ
  pub int64_of_float32 : ℕ → ℕ
  pub int64_of_float64 : ℕ → ℕ

-- `int64(v)` of an int32 and its 64 bits
sign_extend : ℕ → ℕ
sign_extend n = if ltb n (2 ^ 31) then n else n + (2 ^ 64 - 2 ^ 32)

module _ (casts : FloatCasts) where
  cast_floats : Values → Option (List ℕ)
  cast_floats no_values = some []
  cast_floats (value_then (float32 f) l) = elim (cast_floats l) [
    | none ↦ none
    | some fs ↦ some (f ∷ fs)
  ]
  cast_floats (value_then (float64 f) l) = elim (cast_floats l) [
    | none ↦ none
    | some fs ↦ some (casts.float32_of_float64 f ∷ fs)
  ]
  cast_floats (value_then _ l) = none

  convert_to_vector : Value → Result (List ℕ)
  convert_to_vector (float32s v) = ok v
  convert_to_vector (float64s v) = ok (map casts.float32_of_float64 v)
  convert_to_vector (anys l) = elim (cast_floats l) [ none ↦ err other | some v ↦ ok v ]
  convert_to_vector _ = err other

  -- a vector of the size that the schema asks for
  sized_vector : Option ℕ → Value → Result Value
  sized_vector size v = do
    vector ← convert_to_vector v
    elim size [
      | none ↦ err other
      | some n ↦ if length vector == n then ok (float32s vector) else err other
    ]

  as_integer : Value → Result Value
  as_integer (int64 v) = ok (int64 v)
  as_integer (int v) = ok (int64 v)
  as_integer (int32 v) = ok (int64 (sign_extend v))
  as_integer (uint v) = ok (int64 v)
  as_integer (uint32 v) = ok (int64 v)
  as_integer (float32 v) = ok (int64 (casts.int64_of_float32 v))
  as_integer (float64 v) = ok (int64 (casts.int64_of_float64 v))
  as_integer _ = err other

  as_float : Value → Result Value
  as_float (float64 v) = ok (float64 v)
  as_float (float32 v) = ok (float64 (casts.float64_of_float32 v))
  as_float _ = err other

as_string : Value → Result Value
as_string (string_value v) = ok (string_value v)
as_string _ = err other

cast_strings : Values → Option (List Bytes)
cast_strings no_values = some []
cast_strings (value_then (string_value s) l) = elim (cast_strings l) [
  | none ↦ none
  | some ss ↦ some (s ∷ ss)
]
cast_strings (value_then _ l) = none

as_strings : Value → Result Value
as_strings (strings v) = ok (strings v)
as_strings (anys l) = elim (cast_strings l) [ none ↦ err other | some v ↦ ok (strings v) ]
as_strings _ = err other

module _ (casts : FloatCasts) where
  -- the cases on the type of the index
  pub check_value : IndexType → IndexSchemaValue → Value → Result Value
  check_value index_vector_flat s v =
      sized_vector casts (elim s.vector_flat [ none ↦ none | some p ↦ some p.vector_size ]) v
  check_value index_vector_vamana s v =
      sized_vector casts (elim s.vector_vamana [ none ↦ none | some p ↦ some p.vector_size ]) v
  check_value index_text s v = as_string v
  check_value index_string s v = as_string v
  check_value index_integer s v = as_integer casts v
  check_value index_float s v = as_float casts v
  check_value index_string_array s v = as_strings v
  check_value (other_type name) s v = ok v

  -- a property that the schema does not name is left as it is
  check_property : Option IndexSchemaValue → Value → Result Value
  check_property none v = ok v
  check_property (some s) v = check_value s.kind s v

  -- the loop over the properties, whose values change where the schema asks for it
  pub check_compatible_map : IndexSchema → PointAsMap → Result PointAsMap
  check_compatible_map schema [] = ok []
  check_compatible_map schema ((k, v) ∷ m) = do
    v' ← check_property (lookup k schema) v
    m' ← check_compatible_map schema m
    ok ((k, v') ∷ m')
