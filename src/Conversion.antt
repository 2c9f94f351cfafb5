-- ===== src/Conversion.antt =====
-- conversion/conversion.go and conversion/keys.go: numbers, edge lists and vectors as bytes, and the
-- keys under which a node's values are stored.
-- A byte is a number below 256 and a byte slice a list of bytes. `none` is a run-time panic (an
-- index out of range). A float32 stands for its 32-bit pattern, on which `math.Float32bits` and
-- `math.Float32frombits` are the identity. The slices are the safe variants; those over `unsafe`
-- are not modelled.
pub mod RoundTrip
pub mod Keys
mod Tests
use semadb.Base.{
  All, Bool, List, Option, drop, length, ltb, none, not, some, suc, take, zero, ℕ, [], ◌%◌, ◌*◌,
  ◌++◌, ◌+◌, ◌/◌, ◌<◌, ◌==◌, if◌then◌else◌, ◌||◌, ◌∷◌,
}

abbrev pub Bytes : Type 0
Bytes = List ℕ

-- every item is a byte
abbrev pub AreBytes : Bytes → Type 0
AreBytes = All (λ b. b < 256)

-- 256 to the power of a number of bytes
abbrev pub pow256 : ℕ → ℕ
pow256 zero = 1
pow256 (suc n) = 256 * pow256 n

-- `binary.LittleEndian.PutUint64` (8 bytes) and `PutUint32` (4 bytes)
pub le_bytes : ℕ → ℕ → Bytes
le_bytes zero x = []
le_bytes (suc n) x = (x % 256) ∷ le_bytes n (x / 256)

-- the number that a little-endian slice stands for
pub le_value : Bytes → ℕ
le_value [] = 0
le_value (b ∷ bs) = b + 256 * le_value bs

-- `binary.LittleEndian.Uint64(b)` and `Uint32(b)`: the first `n` bytes, which must be there
pub le_read : ℕ → Bytes → Option ℕ
le_read n b = if ltb (length b) n then none else some (le_value (take n b))

pub uint64_to_bytes : ℕ → Bytes
uint64_to_bytes i = le_bytes 8 i

pub bytes_to_uint64 : Bytes → Option ℕ
bytes_to_uint64 b = le_read 8 b

pub single_float32_to_bytes : ℕ → Bytes
single_float32_to_bytes f = le_bytes 4 f

pub bytes_to_single_float32 : Bytes → Option ℕ
bytes_to_single_float32 b = le_read 4 b

-- the loop that writes each item at its place in a slice of `len(f) * n` bytes
pub write_words : ℕ → List ℕ → Bytes
write_words n [] = []
write_words n (x ∷ xs) = le_bytes n x ++ write_words n xs

-- the loop over `k` places, each `n` bytes wide
pub read_words : ℕ → ℕ → Bytes → List ℕ
read_words n zero b = []
read_words n (suc k) b = le_value (take n b) ∷ read_words n k (drop n b)

pub float32_to_bytes_safe : List ℕ → Bytes
float32_to_bytes_safe f = write_words 4 f

pub bytes_to_float32_safe : Bytes → List ℕ
bytes_to_float32_safe b = read_words 4 (length b / 4) b

pub edge_list_to_bytes : List ℕ → Bytes
edge_list_to_bytes edges = write_words 8 edges

pub bytes_to_edge_list : Bytes → List ℕ
bytes_to_edge_list b = read_words 8 (length b / 8) b

-- 'n', the id in eight bytes, the suffix
pub node_key : ℕ → ℕ → Bytes
node_key id suffix = b'n' ∷ (le_bytes 8 id ++ suffix ∷ [])

-- `key[i]`, where the length has been checked
pub byte_at : Bytes → ℕ → ℕ
byte_at [] i = 0
byte_at (b ∷ bs) zero = b
byte_at (b ∷ bs) (suc i) = byte_at bs i

pub node_id_from_key : Bytes → ℕ → Option ℕ
node_id_from_key key suffix =
    if not (length key == 10) || not (byte_at key 0 == b'n') || not (byte_at key 9 == suffix)
    then none
    else some (le_value (take 8 (drop 1 key)))
