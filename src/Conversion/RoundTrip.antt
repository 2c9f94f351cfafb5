-- ===== src/Conversion/RoundTrip.antt =====
-- Encoding and decoding of numbers and lists of numbers are inverse.
use mathlib.Core.List.{append-nil}
use semadb.Base.{
  All, List, ap, arith, drop-append, length, length-append, refl, some, suc, take-append,
  take_of_length-le, zero, ℕ, [], ◌%◌, ◌*◌, ◌++◌, ◌+◌, ◌/◌, ◌<◌, ◌^◌, ◌∷◌, ◌≡◌,
}
use semadb.Conversion.{
  AreBytes, Bytes, bytes_to_edge_list, bytes_to_float32_safe, bytes_to_single_float32,
  bytes_to_uint64, edge_list_to_bytes, float32_to_bytes_safe, le_bytes, le_read, le_value, pow256,
  read_words, single_float32_to_bytes, uint64_to_bytes, write_words,
}

pub length-le_bytes : (n x : ℕ) → length (le_bytes n x) ≡ n
unfolding le_bytes
length-le_bytes zero x = refl
length-le_bytes (suc n) x = ap suc (length-le_bytes n (x / 256))

pub le_bytes-AreBytes : (n x : ℕ) → AreBytes (le_bytes n x)
unfolding le_bytes
le_bytes-AreBytes zero x = tt
le_bytes-AreBytes (suc n) x = (omega arith, le_bytes-AreBytes n (x / 256))

pub le_value-le_bytes : (n x : ℕ) → x < pow256 n → le_value (le_bytes n x) ≡ x
unfolding le_bytes le_value
le_value-le_bytes zero x h = omega arith
le_value-le_bytes (suc n) x h = omega (arith, le_value-le_bytes n (x / 256) (omega arith))

pub le_bytes-le_value : (b : Bytes) → AreBytes b → le_bytes (length b) (le_value b) ≡ b
unfolding le_bytes le_value
le_bytes-le_value [] h = refl
le_bytes-le_value (x ∷ b) h =
    let low : (x + 256 * le_value b) % 256 ≡ x = omega arith in
    let high : (x + 256 * le_value b) / 256 ≡ le_value b = omega arith in
    rw (low, high) (ap (◌∷◌ x) (le_bytes-le_value b h.1))

pub le_value-lt-pow256 : (b : Bytes) → AreBytes b → le_value b < pow256 (length b)
unfolding le_value
le_value-lt-pow256 [] h = omega arith
le_value-lt-pow256 (x ∷ b) h = omega (arith, le_value-lt-pow256 b h.1)

-- what is read back from what was written, whatever follows it
pub le_read-le_bytes :
    (n x : ℕ) (rest : Bytes) → x < pow256 n → le_read n (le_bytes n x ++ rest) ≡ some x
unfolding le_read
le_read-le_bytes n x rest h =
    rw (take-append n (le_bytes n x) rest (length-le_bytes n x), le_value-le_bytes n x h)
      (ground (arith, length-append (le_bytes n x) rest, length-le_bytes n x))

pub length-write_words : (n : ℕ) (xs : List ℕ) → length (write_words n xs) ≡ length xs * n
unfolding write_words
length-write_words n [] = omega arith
length-write_words n (x ∷ xs) =
    rw (length-append, length-le_bytes) (omega (arith, length-write_words n xs))

pub read_words-write_words :
    (n : ℕ) (xs : List ℕ)
    → All (λ x. x < pow256 n) xs
    → read_words n (length xs) (write_words n xs) ≡ xs
unfolding read_words write_words
read_words-write_words n [] h = refl
read_words-write_words n (x ∷ xs) h =
    let sized = length-le_bytes n x in
    rw
      (
        take-append n (le_bytes n x) (write_words n xs) sized,
        drop-append n (le_bytes n x) (write_words n xs) sized,
        le_value-le_bytes n x h.0,
      )
      (ap (◌∷◌ x) (read_words-write_words n xs h.1))

pub length-uint64_to_bytes : (i : ℕ) → length (uint64_to_bytes i) ≡ 8
unfolding uint64_to_bytes
length-uint64_to_bytes i = length-le_bytes 8 i

pub uint64-bytes : (i : ℕ) → i < 2 ^ 64 → bytes_to_uint64 (uint64_to_bytes i) ≡ some i
unfolding uint64_to_bytes bytes_to_uint64
uint64-bytes i h = rw (append-nil (le_bytes 8 i)) at (le_read-le_bytes 8 i [] h)

pub edge_list-cons :
    (x : ℕ) (xs : List ℕ) → edge_list_to_bytes (x ∷ xs) ≡ uint64_to_bytes x ++ edge_list_to_bytes xs
unfolding uint64_to_bytes edge_list_to_bytes write_words
edge_list-cons x xs = refl

pub length-edge_list_to_bytes : (xs : List ℕ) → length (edge_list_to_bytes xs) ≡ 8 * length xs
unfolding edge_list_to_bytes
length-edge_list_to_bytes xs = omega (arith, length-write_words 8 xs)

-- Every 64-bit number is read back from its eight bytes, whatever bytes follow them, and every
-- eight bytes are the encoding of the number that they are read as.
pub uint64_round_trip :
    (i : ℕ) (b rest : Bytes)
    → i < 2 ^ 64
    → AreBytes b
    → length b ≡ 8
    → (bytes_to_uint64 (uint64_to_bytes i ++ rest) ≡ some i)
      × ((j : ℕ) × (bytes_to_uint64 b ≡ some j) × (j < 2 ^ 64) × (uint64_to_bytes j ≡ b))
unfolding uint64_to_bytes bytes_to_uint64 le_read
uint64_round_trip i b rest h bytes sized = (
  unfold le_read in le_read-le_bytes 8 i rest h,
  (
    le_value b,
    rw (sized, take_of_length-le 8 b (omega arith)),
    rw sized at (le_value-lt-pow256 b bytes),
    rw sized at (le_bytes-le_value b bytes),
  ),
)

-- A list of 64-bit edges is read back from its bytes, eight for each.
pub edge_list_round_trip :
    (edges : List ℕ)
    → All (λ e. e < 2 ^ 64) edges
    → (bytes_to_edge_list (edge_list_to_bytes edges) ≡ edges)
      × (length (edge_list_to_bytes edges) ≡ 8 * length edges)
unfolding bytes_to_edge_list edge_list_to_bytes
edge_list_round_trip edges h =
    let count : length (write_words 8 edges) / 8 ≡ length edges =
      omega (arith, length-write_words 8 edges) in
    (rw count (read_words-write_words 8 edges h), omega (arith, length-write_words 8 edges))

-- A vector of 32-bit float patterns is read back from its bytes, four for each, and so is a single
-- one.
pub float32_round_trip :
    (f : List ℕ) (x : ℕ)
    → All (λ e. e < 2 ^ 32) f
    → x < 2 ^ 32
    → (bytes_to_float32_safe (float32_to_bytes_safe f) ≡ f)
      × (length (float32_to_bytes_safe f) ≡ 4 * length f)
      × (bytes_to_single_float32 (single_float32_to_bytes x) ≡ some x)
unfolding bytes_to_float32_safe float32_to_bytes_safe bytes_to_single_float32
    single_float32_to_bytes
float32_round_trip f x h hx =
    let count : length (write_words 4 f) / 4 ≡ length f = omega (arith, length-write_words 4 f) in
    (
      rw count (read_words-write_words 4 f h),
      omega (arith, length-write_words 4 f),
      rw (append-nil (le_bytes 4 x)) at (le_read-le_bytes 4 x [] hx),
    )
