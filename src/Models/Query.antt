-- ===== src/Models/Query.antt =====
-- Queries and `Query.Validate` of models/search.go. A query holds queries, in its conjunction, its
-- disjunction and as the filters of its options, so that the types stand in one block; a pointer to a
-- query or to options that hold one is a type of its own, with a constructor for nil.
pub mod Safe
mod Tests
use semadb.Base.{
  Bool, List, Option, [], false, if◌then◌else◌, length, ltb, none, some, true, ℕ, ◌+◌, ◌==◌, ◌∷◌,
}
use semadb.Base.Assoc.{lookup}
use semadb.Base.Result.{Result, err, ok, other, panic, ◌>>=◌}
use semadb.Conversion.{Bytes}
use semadb.Diskstore.Order.{bytes_eq, bytes_key}
use semadb.Inverted.Index.{Operator}
use semadb.Models.{
  IndexSchema, IndexSchemaValue, IndexType, index_float, index_integer, index_string,
  index_string_array, index_text, index_vector_flat, index_vector_vamana, other_type,
}

pub record StringOptions : Type 0 where
  pub value : Bytes
  pub operator : Operator
  pub end_value : Bytes

-- of an integer and of a float index, by the bits of the numbers
pub record NumberOptions : Type 0 where
  pub value : ℕ
  pub operator : Operator
  pub end_value : ℕ

pub record StringArrayOptions : Type 0 where
  pub value : List Bytes
  pub operator : Operator

mutual
  pub data Query : Type 0 where
    query :
        (property : Bytes) (flat : FlatOptions) (vamana : VamanaOptions) (text : TextOptions)
        (string : Option StringOptions) (integer float : Option NumberOptions)
        (array : Option StringArrayOptions) (conjunction disjunction : Queries)
        → Query

  pub data Queries : Type 0 where
    no_queries : Queries
    query_then : Query → Queries → Queries

  pub data FlatOptions : Type 0 where
    no_flat : FlatOptions
    flat_options :
        (vector : List ℕ) (operator : Operator) (limit : ℕ) (filter : Filter) (weight : Option ℕ)
        → FlatOptions

  pub data VamanaOptions : Type 0 where
    no_vamana : VamanaOptions
    vamana_options :
        (vector : List ℕ) (operator : Operator) (search_size limit : ℕ) (filter : Filter)
        (weight : Option ℕ)
        → VamanaOptions

  pub data TextOptions : Type 0 where
    no_text : TextOptions
    text_options :
        (value : Bytes) (operator : Operator) (limit : ℕ) (filter : Filter) (weight : Option ℕ)
        → TextOptions

  pub data Filter : Type 0 where
    no_filter : Filter
    filter_by : Query → Filter

-- "_and" and "_or"
abbrev pub and_key : Bytes
and_key = 95 ∷ 97 ∷ 110 ∷ 100 ∷ []

abbrev pub or_key : Bytes
or_key = 95 ∷ 111 ∷ 114 ∷ []

-- The length of the vector against the size in the schema, whose parameters are read through a
-- pointer: nil is a panic.
sized : Option ℕ → List ℕ → Result (Unit {0})
sized none vector = panic
sized (some size) vector = if length vector == size then ok tt else err other

check_flat_options : IndexSchemaValue → FlatOptions → Result (Unit {0})
check_flat_options v no_flat = err other
check_flat_options v (flat_options vector _ _ _ _) =
    sized (elim v.vector_flat [ none ↦ none | some p ↦ some p.vector_size ]) vector

check_vamana_options : IndexSchemaValue → VamanaOptions → Result (Unit {0})
check_vamana_options v no_vamana = err other
check_vamana_options v (vamana_options vector _ search_size limit _ _) = do
  _ ← sized (elim v.vector_vamana [ none ↦ none | some p ↦ some p.vector_size ]) vector
  (if ltb search_size limit then err other else ok tt)

check_text_options : TextOptions → Result (Unit {0})
check_text_options no_text = err other
check_text_options (text_options _ _ _ _ _) = ok tt

check_options {ℓ} : {A : Type ℓ} → Option A → Result (Unit {0})
check_options none = err other
check_options (some options) = ok tt

-- the base case, by the type of the index
check_query : IndexType → IndexSchemaValue → Query → Result (Unit {0})
check_query index_vector_flat v (query _ flat _ _ _ _ _ _ _ _) = check_flat_options v flat
check_query index_vector_vamana v (query _ _ graph _ _ _ _ _ _ _) = check_vamana_options v graph
check_query index_text v (query _ _ _ words _ _ _ _ _ _) = check_text_options words
check_query index_string v (query _ _ _ _ string _ _ _ _ _) = check_options string
check_query index_string_array v (query _ _ _ _ _ _ _ array _ _) = check_options array
check_query index_integer v (query _ _ _ _ _ integer _ _ _ _) = check_options integer
check_query index_float v (query _ _ _ _ _ _ float _ _ _) = check_options float
check_query (other_type _) v q = err other

check_found : Option IndexSchemaValue → Query → Result (Unit {0})
check_found none q = err other
check_found (some v) q = check_query v.kind v q

mutual
  pub validate_query : IndexSchema → Query → Result (Unit {0})
  validate_query schema (query p flat graph words string integer float array conj disj) =
      let all = validate_queries schema conj in
      let any = validate_queries schema disj in
      if bytes_eq p and_key
      then all
      else if bytes_eq p or_key
      then any
      else check_found (lookup p schema)
          (query p flat graph words string integer float array conj disj)

  pub validate_queries : IndexSchema → Queries → Result (Unit {0})
  validate_queries schema no_queries = ok tt
  validate_queries schema (query_then q qs) = do
    _ ← validate_query schema q
    validate_queries schema qs
