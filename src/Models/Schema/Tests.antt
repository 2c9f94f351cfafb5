-- ===== src/Models/Schema/Tests.antt =====
-- A map as a JSON decoder makes it, against a schema of an integer and a vector.
use semadb.Base.{[], none, refl, some, ℕ, ◌+◌, ◌≡◌, ◌∷◌}
use semadb.Base.Assoc.{lookup}
use semadb.Base.Result.{err, ok, other}
use semadb.Conversion.{Bytes}
use semadb.Diskstore.Order.{bytes_key}
use semadb.Models.{
  IndexSchema, PointAsMap, anys, float64, float32s, haversine, index_integer, index_vector_flat,
  int64, no_values, string_value, uint, value_then,
}
use semadb.Models.Schema.{
  FloatCasts, as_integer, cast_floats, check_compatible_map, check_property, check_value,
  convert_to_vector, sized_vector, validate, validate_value, check_flat, is_haversine,
}
use semadb.Models.Schema.Compatible.{check_compatible_map-Conforms, keys}
use semadb.Models.Schema.Conforms.{Conforms}

-- casts that leave a trace
abbrev casts : FloatCasts
casts = record {
  float32_of_float64 = λ f. f + 1;
  float64_of_float32 = λ f. f;
  int64_of_float32 = λ f. f;
  int64_of_float64 = λ f. f + 2;
}

abbrev age : Bytes
age = 97 ∷ []

abbrev place : Bytes
place = 112 ∷ []

abbrev schema : ℕ → IndexSchema
schema size =
    (
      age,
      record {
        kind = index_integer;
        vector_flat = none;
        vector_vamana = none;
        text = none;
        string = none;
        string_array = none;
      },
    )
    ∷ (
      place,
      record {
        kind = index_vector_flat;
        vector_flat =
            some (record { vector_size = size; distance_metric = haversine; quantizer = none });
        vector_vamana = none;
        text = none;
        string = none;
        string_array = none;
      },
    )
    ∷ []

abbrev sent : PointAsMap
sent =
    (place, anys (value_then (float64 5) (value_then (float64 6) no_values)))
    ∷ (age, float64 40)
    ∷ (98 ∷ [], string_value [])
    ∷ []

abbrev checked : PointAsMap
checked = (place, float32s (6 ∷ 7 ∷ [])) ∷ (age, int64 42) ∷ (98 ∷ [], string_value []) ∷ []

check_sent : check_compatible_map casts (schema 2) sent ≡ ok checked
unfolding check_compatible_map check_property check_value sized_vector convert_to_vector cast_floats
    as_integer lookup
check_sent = refl

-- a vector of the wrong size
sent_refused : check_compatible_map casts (schema 3) sent ≡ err other
unfolding check_compatible_map check_property check_value sized_vector convert_to_vector cast_floats
    as_integer lookup
sent_refused = refl

-- the haversine distance has two coordinates
haversine_refused : validate (schema 3) ≡ err other
unfolding validate validate_value check_flat is_haversine
haversine_refused = refl

-- an unsigned number beyond the range of an int64 is taken, with the same bits
large_uint : as_integer casts (uint 0xffffffffffffffff) ≡ ok (int64 0xffffffffffffffff)
unfolding as_integer
large_uint = refl

check_compatible_map-Conforms_example :
    (keys checked ≡ keys sent)
    × Conforms (schema 2) checked
    × (check_compatible_map casts (schema 2) checked ≡ ok checked)
check_compatible_map-Conforms_example =
    check_compatible_map-Conforms casts (schema 2) sent checked check_sent
