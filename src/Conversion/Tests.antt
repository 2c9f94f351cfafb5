-- ===== src/Conversion/Tests.antt =====
-- Runs of the encodings, and the round trips at concrete values.
use semadb.Base.{arith, length, none, refl, some, [], ◌*◌, ◌↔◌, ◌∷◌, ◌≡◌}
use semadb.Conversion.{
  Bytes, byte_at, bytes_to_edge_list, bytes_to_uint64, edge_list_to_bytes, le_bytes, le_read,
  node_id_from_key, node_key, uint64_to_bytes,
}
use semadb.Conversion.RoundTrip.{edge_list_round_trip}
use semadb.Conversion.Keys.{node_id_from_key_iff}

-- a slice that is too short is an index out of range
short_read : bytes_to_uint64 (1 ∷ 2 ∷ []) ≡ none
unfolding bytes_to_uint64 le_read
short_read = refl

little_endian : uint64_to_bytes 0x0102 ≡ 2 ∷ 1 ∷ 0 ∷ 0 ∷ 0 ∷ 0 ∷ 0 ∷ 0 ∷ []
unfolding uint64_to_bytes le_bytes
little_endian = refl

wrong_suffix : node_id_from_key (node_key 7 b'i') b'd' ≡ none
unfolding node_id_from_key node_key byte_at le_bytes
wrong_suffix = refl

abbrev eight : Bytes
eight = 1 ∷ 2 ∷ 3 ∷ 4 ∷ 5 ∷ 6 ∷ 7 ∷ 255 ∷ []

edge_list_round_trip_example :
    (bytes_to_edge_list (edge_list_to_bytes (1 ∷ 500 ∷ [])) ≡ 1 ∷ 500 ∷ [])
    × (length (edge_list_to_bytes (1 ∷ 500 ∷ [])) ≡ 8 * 2)
edge_list_round_trip_example = edge_list_round_trip (1 ∷ 500 ∷ []) (ground arith)

abbrev key_of_258 : Bytes
key_of_258 = b'n' ∷ 2 ∷ 1 ∷ 0 ∷ 0 ∷ 0 ∷ 0 ∷ 0 ∷ 0 ∷ b'v' ∷ []

node_id_from_key_iff_example :
    (node_id_from_key key_of_258 b'v' ≡ some 258) ↔ (key_of_258 ≡ node_key 258 b'v')
node_id_from_key_iff_example = node_id_from_key_iff key_of_258 b'v' 258 (ground arith) (omega arith)
