-- ===== src/Models/Schema/Compatible.antt =====
-- The check of a map against a schema: its outcome conforms, and is checked to itself.
use semadb.Base.{List, Option, [], arith, map, none, refl, some, ◌≡◌, ◌∷◌, ap₂}
use semadb.Base.Assoc.{lookup}
use semadb.Base.Result.{ok}
use semadb.Conversion.{Bytes}
use semadb.Diskstore.Order.{bytes_key}
use semadb.Models.{IndexSchema, IndexSchemaValue, PointAsMap, Value}
use semadb.Models.Schema.{FloatCasts, check_compatible_map, check_property}
use semadb.Models.Schema.Conforms.{Conforms, Holds-check_value, HoldsFound, check_value-Holds}

abbrev pub keys : PointAsMap → List Bytes
keys m = map (λ e. e.0) m

module _ (casts : FloatCasts) where
  check_property-HoldsFound :
      (found : Option IndexSchemaValue) (v w : Value)
      → check_property casts found v ≡ ok w
      → HoldsFound found w × (check_property casts found w ≡ ok w)
  unfolding check_property
  check_property-HoldsFound none v w e = (tt, refl)
  check_property-HoldsFound (some s) v w e =
      let holds = check_value-Holds casts s.kind s v w e in
      (holds, Holds-check_value casts s.kind s w holds)

  -- a check that succeeds, in its parts
  check_parts :
      (schema : IndexSchema) (k : Bytes) (v : Value) (m m' : PointAsMap)
      → check_compatible_map casts schema ((k, v) ∷ m) ≡ ok m'
      → (w : Value) × (n : PointAsMap) × (check_property casts (lookup k schema) v ≡ ok w)
        × (check_compatible_map casts schema m ≡ ok n)
        × (m' ≡ (k, w) ∷ n)
  unfolding check_compatible_map
  check_parts schema k v m m' e = ground arith

  -- If a map of a client passes the check against a schema, then the outcome has the same properties in
  -- the same order, the value of every property that the schema names is one that an index of its type
  -- holds (a vector of the size in the schema, a string, an int64, a float64 or strings), and the outcome
  -- itself passes the check, unchanged.
  pub check_compatible_map-Conforms :
      (schema : IndexSchema) (m m' : PointAsMap)
      → check_compatible_map casts schema m ≡ ok m'
      → (keys m' ≡ keys m) × Conforms schema m' × (check_compatible_map casts schema m' ≡ ok m')
  unfolding check_compatible_map
  check_compatible_map-Conforms schema [] m' e =
      let same : m' ≡ [] = ground arith in rw same (refl, tt, refl)
  check_compatible_map-Conforms schema ((k, v) ∷ m) m' e =
      let (w, n, checked, rest, same) = check_parts schema k v m m' e in
      let (holds, again) = check_property-HoldsFound (lookup k schema) v w checked in
      let (names, conforms, fixed) = check_compatible_map-Conforms schema m n rest in
      rw same (ap₂ ◌∷◌ refl names, (holds, conforms), rw (again, fixed) refl)
