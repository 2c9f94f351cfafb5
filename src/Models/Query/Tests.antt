-- ===== src/Models/Query/Tests.antt =====
-- A conjunction of a vector query and a query on an integer.
use semadb.Base.{List, [], none, refl, some, ℕ, ◌≡◌, ◌≢◌, ◌∷◌}
use semadb.Base.Assoc.{lookup}
use semadb.Base.Result.{err, ok, other, panic}
use semadb.Conversion.{Bytes}
use semadb.Diskstore.Order.{bytes_key}
use semadb.Inverted.Index.{equals, unknown}
use semadb.Models.{IndexSchema, euclidean, index_integer, index_vector_flat}
use semadb.Models.Query.{
  Query, and_key, check_flat_options, check_found, check_options, check_query, flat_options,
  no_filter, no_flat, no_queries, no_text, no_vamana, query, query_then, sized, validate_query,
}
use semadb.Models.Query.Safe.{validate_query_safe}
use semadb.Models.Schema.{check_flat, is_haversine, validate, validate_value}

abbrev age : Bytes
age = 97 ∷ []

abbrev colour : Bytes
colour = 99 ∷ []

abbrev schema : IndexSchema
schema =
    (
      age,
      record {
        kind = index_integer;
        vector_flat = none;
        vector_vamana = none;
        text = none;
        string = none;
        string_array = none;
      },
    )
    ∷ (
      colour,
      record {
        kind = index_vector_flat;
        vector_flat =
            some (record { vector_size = 2; distance_metric = euclidean; quantizer = none });
        vector_vamana = none;
        text = none;
        string = none;
        string_array = none;
      },
    )
    ∷ []

abbrev by_age : Query
by_age =
    query age no_flat no_vamana no_text none
      (some (record { value = 42; operator = equals; end_value = 0 })) none none no_queries
      no_queries

abbrev by_colour : List ℕ → Query
by_colour vector =
    query colour (flat_options vector unknown 10 no_filter none) no_vamana no_text none none none
      none no_queries no_queries

abbrev both : List ℕ → Query
both vector =
    query and_key no_flat no_vamana no_text none none none none
      (query_then by_age (query_then (by_colour vector) no_queries)) no_queries

both_valid : validate_query schema (both (1 ∷ 2 ∷ [])) ≡ ok tt
unfolding validate_query check_found check_query check_options check_flat_options sized lookup
both_valid = refl

both_too_short : validate_query schema (both (1 ∷ [])) ≡ err other
unfolding validate_query check_found check_query check_options check_flat_options sized lookup
both_too_short = refl

schema_valid : validate schema ≡ ok tt
unfolding validate validate_value check_flat is_haversine
schema_valid = refl

validate_query_safe_example : validate_query schema (both (1 ∷ [])) ≢ panic
validate_query_safe_example = validate_query_safe schema (both (1 ∷ [])) schema_valid
