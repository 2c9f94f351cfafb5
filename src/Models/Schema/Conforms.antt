-- ===== src/Models/Schema/Conforms.antt =====
-- What a checked map holds.
use semadb.Base.{All, List, Option, arith, length, none, refl, some, ℕ, ◌≡◌}
use semadb.Base.Assoc.{lookup}
use semadb.Base.Result.{ok}
use semadb.Conversion.{Bytes}
use semadb.Diskstore.Order.{bytes_key}
use semadb.Models.{
  IndexSchema, IndexSchemaValue, IndexType, PointAsMap, Value, float32s, float64, index_float,
  index_integer, index_string, index_string_array, index_text, index_vector_flat,
  index_vector_vamana, int64, other_type, string_value, strings,
}
use semadb.Models.Schema.{
  FloatCasts, as_float, as_integer, as_string, as_strings, check_value, convert_to_vector,
  sized_vector,
}

-- the sizes that the schema asks of a vector, if it has the parameters
abbrev pub flat_size : IndexSchemaValue → Option ℕ
flat_size s = elim s.vector_flat [ none ↦ none | some p ↦ some p.vector_size ]

abbrev pub vamana_size : IndexSchemaValue → Option ℕ
vamana_size s = elim s.vector_vamana [ none ↦ none | some p ↦ some p.vector_size ]

-- the values that an index of a type can hold
pub data Holds : IndexType → IndexSchemaValue → Value → Type 0 where
  holds_flat :
      {s : IndexSchemaValue} (v : List ℕ)
      → flat_size s ≡ some (length v)
      → Holds index_vector_flat s (float32s v)
  holds_vamana :
      {s : IndexSchemaValue} (v : List ℕ)
      → vamana_size s ≡ some (length v)
      → Holds index_vector_vamana s (float32s v)
  holds_text : {s : IndexSchemaValue} (v : Bytes) → Holds index_text s (string_value v)
  holds_string : {s : IndexSchemaValue} (v : Bytes) → Holds index_string s (string_value v)
  holds_integer : {s : IndexSchemaValue} (v : ℕ) → Holds index_integer s (int64 v)
  holds_float : {s : IndexSchemaValue} (v : ℕ) → Holds index_float s (float64 v)
  holds_strings : {s : IndexSchemaValue} (v : List Bytes) → Holds index_string_array s (strings v)
  holds_any : {s : IndexSchemaValue} {name : Bytes} (v : Value) → Holds (other_type name) s v

abbrev pub HoldsFound : Option IndexSchemaValue → Value → Type 0
HoldsFound none v = Unit {0}
HoldsFound (some s) v = Holds s.kind s v

abbrev pub Conforms : IndexSchema → PointAsMap → Type 0
Conforms schema m = All (λ (k, v). HoldsFound (lookup k schema) v) m

module _ (casts : FloatCasts) where
  sized_vector_ok :
      (size : Option ℕ) (v w : Value)
      → sized_vector casts size v ≡ ok w
      → (vec : List ℕ) × (w ≡ float32s vec) × (size ≡ some (length vec))
  unfolding sized_vector
  sized_vector_ok none v w e = ground arith
  sized_vector_ok (some n) v w e = ground arith

  as_string_ok : (v w : Value) → as_string v ≡ ok w → (x : Bytes) × (w ≡ string_value x)
  unfolding as_string
  as_string_ok v w e = ground arith

  as_strings_ok : (v w : Value) → as_strings v ≡ ok w → (x : List Bytes) × (w ≡ strings x)
  unfolding as_strings
  as_strings_ok v w e = ground arith

  as_integer_ok : (v w : Value) → as_integer casts v ≡ ok w → (x : ℕ) × (w ≡ int64 x)
  unfolding as_integer
  as_integer_ok v w e = ground arith

  as_float_ok : (v w : Value) → as_float casts v ≡ ok w → (x : ℕ) × (w ≡ float64 x)
  unfolding as_float
  as_float_ok v w e = ground arith

  pub check_value-Holds :
      (t : IndexType) (s : IndexSchemaValue) (v w : Value)
      → check_value casts t s v ≡ ok w
      → Holds t s w
  unfolding check_value
  check_value-Holds index_vector_flat s v w e =
      let (vec, same, size) = sized_vector_ok (flat_size s) v w e in rw same (holds_flat vec size)
  check_value-Holds index_vector_vamana s v w e =
      let (vec, same, size) = sized_vector_ok (vamana_size s) v w e in
      rw same (holds_vamana vec size)
  check_value-Holds index_text s v w e =
      let (x, same) = as_string_ok v w e in rw same (holds_text x)
  check_value-Holds index_string s v w e =
      let (x, same) = as_string_ok v w e in rw same (holds_string x)
  check_value-Holds index_integer s v w e =
      let (x, same) = as_integer_ok v w e in rw same (holds_integer x)
  check_value-Holds index_float s v w e =
      let (x, same) = as_float_ok v w e in rw same (holds_float x)
  check_value-Holds index_string_array s v w e =
      let (x, same) = as_strings_ok v w e in rw same (holds_strings x)
  check_value-Holds (other_type name) s v w e = holds_any w

  -- a value that an index holds passes its check as it is
  pub Holds-check_value :
      (t : IndexType) (s : IndexSchemaValue) (w : Value)
      → Holds t s w
      → check_value casts t s w ≡ ok w
  unfolding check_value sized_vector convert_to_vector as_string as_integer as_float as_strings
  Holds-check_value t s w (holds_flat v size) = rw size (ground arith)
  Holds-check_value t s w (holds_vamana v size) = rw size (ground arith)
  Holds-check_value t s w (holds_text v) = refl
  Holds-check_value t s w (holds_string v) = refl
  Holds-check_value t s w (holds_integer v) = refl
  Holds-check_value t s w (holds_float v) = refl
  Holds-check_value t s w (holds_strings v) = refl
  Holds-check_value t s w (holds_any v) = refl
