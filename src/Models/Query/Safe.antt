-- ===== src/Models/Query/Safe.antt =====
-- A query that is checked against a valid schema does not end in a panic.
use semadb.Base.{Bool-cases, Option-cases, [], arith, inl, inr, some, subst, ◌≡◌, ◌≢◌, ◌∷◌}
use semadb.Base.Assoc.{lookup}
use semadb.Base.Result.{ok, panic}
use semadb.Conversion.{Bytes}
use semadb.Diskstore.Order.{bytes_eq, bytes_key}
use semadb.Models.{
  IndexSchema, IndexSchemaValue, IndexType, index_float, index_integer, index_string,
  index_string_array, index_text, index_vector_flat, index_vector_vamana, other_type,
}
use semadb.Models.Query.{
  Queries, Query, check_flat_options, check_found, check_options, check_query, check_text_options,
  check_vamana_options, flat_options, no_flat, no_queries, no_vamana, query, query_then, sized,
  validate_queries, validate_query, vamana_options,
}
use semadb.Models.Schema.{check_flat, check_vamana, validate, validate_value}

validate_parts :
    (k : Bytes) (v : IndexSchemaValue) (schema : IndexSchema)
    → validate ((k, v) ∷ schema) ≡ ok tt
    → (validate_value v.kind v ≡ ok tt) × (validate schema ≡ ok tt)
unfolding validate
validate_parts k v schema valid = ground arith

-- in a valid schema every value is valid
lookup-validate :
    (k : Bytes) (schema : IndexSchema) (v : IndexSchemaValue)
    → validate schema ≡ ok tt
    → lookup k schema ≡ some v
    → validate_value v.kind v ≡ ok tt
unfolding lookup
lookup-validate k [] v valid found = absurd (ground arith)
lookup-validate k ((j, w) ∷ schema) v valid found =
    let (here, rest) = validate_parts j w schema valid in
    elim (Bool-cases (bytes_eq j k)) [
      | inl same ↦
          let found' : some w ≡ some v = ground arith in
          let value : w ≡ v = ground arith in
          subst (λ x. validate_value x.kind x ≡ ok tt) value here
      | inr differ ↦ lookup-validate k schema v rest (ground arith)
    ]

check_query_safe :
    (t : IndexType) (v : IndexSchemaValue) (q : Query)
    → validate_value t v ≡ ok tt
    → check_query t v q ≢ panic
unfolding check_query validate_value check_flat check_vamana check_flat_options check_vamana_options
    check_text_options check_options sized
check_query_safe index_vector_flat v (query _ no_flat _ _ _ _ _ _ _ _) valid e = ground arith
check_query_safe index_vector_flat v (query _ (flat_options vector _ _ _ _) _ _ _ _ _ _ _ _) valid
      e =
    ground arith
check_query_safe index_vector_vamana v (query _ _ no_vamana _ _ _ _ _ _ _) valid e = ground arith
check_query_safe index_vector_vamana v
      (query _ _ (vamana_options vector _ size limit _ _) _ _ _ _ _ _ _) valid e =
    ground arith
check_query_safe index_text v (query _ _ _ words _ _ _ _ _ _) valid e = ground arith
check_query_safe index_string v (query _ _ _ _ string _ _ _ _ _) valid e = ground arith
check_query_safe index_string_array v (query _ _ _ _ _ _ _ array _ _) valid e = ground arith
check_query_safe index_integer v (query _ _ _ _ _ integer _ _ _ _) valid e = ground arith
check_query_safe index_float v (query _ _ _ _ _ _ float _ _ _) valid e = ground arith
check_query_safe (other_type _) v q valid e = ground arith

check_found_safe :
    (p : Bytes) (schema : IndexSchema) (q : Query)
    → validate schema ≡ ok tt
    → check_found (lookup p schema) q ≢ panic
unfolding check_found
check_found_safe p schema q valid = elim (Option-cases (lookup p schema)) [
  | inl missing ↦ rw missing (λ e. ground arith)
  | inr (v, found) ↦ rw found (check_query_safe v.kind v q (lookup-validate p schema v valid found))
]

mutual
  unfolding validate_query validate_queries

  query_safe :
      (schema : IndexSchema) (q : Query) → validate schema ≡ ok tt → validate_query schema q ≢ panic
  query_safe schema (query p flat graph words string integer float array conj disj) valid e =
      let all = queries_safe schema conj valid in
      let any = queries_safe schema disj valid in
      let base =
        check_found_safe p schema (query p flat graph words string integer float array conj disj)
          valid in
      ground arith

  queries_safe :
      (schema : IndexSchema) (qs : Queries)
      → validate schema ≡ ok tt
      → validate_queries schema qs ≢ panic
  queries_safe schema no_queries valid e = ground arith
  queries_safe schema (query_then q qs) valid e =
      let head = query_safe schema q valid in
      let tail = queries_safe schema qs valid in ground arith

-- If an index schema passes its validation, then the validation of any query against it, however the
-- query is nested, does not end in a panic.
pub validate_query_safe :
    (schema : IndexSchema) (q : Query) → validate schema ≡ ok tt → validate_query schema q ≢ panic
validate_query_safe schema q valid = query_safe schema q valid
