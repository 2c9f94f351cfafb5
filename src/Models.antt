-- ===== src/Models.antt =====
-- The data of a request, models/: collections with their index schema, queries, and points as the maps
-- that a client sends. Strings that name one of a few kinds are data types, with a constructor for
-- every other string. Numbers are their bit patterns; a pointer is an `Option`. The rules on fields that
-- the web framework checks from the tags of the source are not modelled.
pub mod Schema
pub mod Query
use semadb.Base.{Bool, List, Option, ℕ, ◌+◌, ◌∷◌}
use semadb.Conversion.{Bytes}

pub data DistanceMetric : Type 0 where
  euclidean cosine dot hamming jaccard haversine : DistanceMetric
  other_metric : Bytes → DistanceMetric

pub data IndexType : Type 0 where
  index_vector_flat index_vector_vamana index_text index_string : IndexType
  index_integer index_float index_string_array : IndexType
  other_type : Bytes → IndexType

pub data QuantizerType : Type 0 where
  none_quantizer binary_quantizer product_quantizer : QuantizerType
  other_quantizer : Bytes → QuantizerType

pub record BinaryQuantizerParameters : Type 0 where
  pub threshold : Option ℕ
  pub trigger_threshold : ℕ
  pub distance_metric : DistanceMetric

pub record ProductQuantizerParameters : Type 0 where
  pub num_centroids : ℕ
  pub num_sub_vectors : ℕ
  pub trigger_threshold : ℕ

pub record Quantizer : Type 0 where
  pub kind : QuantizerType
  pub binary : Option BinaryQuantizerParameters
  pub product : Option ProductQuantizerParameters

pub record VectorFlatParameters : Type 0 where
  pub vector_size : ℕ
  pub distance_metric : DistanceMetric
  pub quantizer : Option Quantizer

pub record VectorVamanaParameters : Type 0 where
  pub vector_size : ℕ
  pub distance_metric : DistanceMetric
  pub search_size : ℕ
  pub degree_bound : ℕ
  pub alpha : ℕ
  pub quantizer : Option Quantizer

pub record TextParameters : Type 0 where
  pub analyser : Bytes

pub record StringParameters : Type 0 where
  pub case_sensitive : Bool

pub record IndexSchemaValue : Type 0 where
  pub kind : IndexType
  pub vector_flat : Option VectorFlatParameters
  pub vector_vamana : Option VectorVamanaParameters
  pub text : Option TextParameters
  pub string : Option StringParameters
  pub string_array : Option StringParameters

abbrev pub IndexSchema : Type 0
IndexSchema = List (Bytes × IndexSchemaValue)

pub record UserPlan : Type 0 where
  pub name : Bytes
  pub max_collections : ℕ
  pub max_collection_point_count : ℕ
  pub max_point_size : ℕ
  pub shard_backup_frequency : ℕ
  pub shard_backup_count : ℕ

pub record Collection : Type 0 where
  pub user_id : Bytes
  pub id : Bytes
  pub replicas : ℕ
  pub timestamp : ℕ
  pub created_at : ℕ
  pub shard_ids : List Bytes
  pub user_plan : UserPlan
  pub index_schema : IndexSchema

-- A value of a map that a client sends, by its dynamic type: the types that the schema checks tell
-- apart, and any other.
mutual
  pub data Value : Type 0 where
    float32s float64s : List ℕ → Value
    anys : Values → Value
    strings : List Bytes → Value
    string_value : Bytes → Value
    int int32 int64 uint uint32 float32 float64 : ℕ → Value
    other_value : Value

  pub data Values : Type 0 where
    no_values : Values
    value_then : Value → Values → Values

-- `PointAsMap`
abbrev pub PointAsMap : Type 0
PointAsMap = List (Bytes × Value)
