-- ===== src/Conversion/Keys.antt =====
-- The keys of conversion/keys.go: which byte slices are a node's key, and for which node.
use semadb.Base.{ap, ap₂, arith, refl, some, ℕ, [], ◌<◌, ◌^◌, ◌↔◌, ◌∷◌, ◌≡◌}
use semadb.Conversion.{AreBytes, Bytes, byte_at, le_bytes, le_value, node_id_from_key, node_key}
use semadb.Conversion.RoundTrip.{le_bytes-le_value, le_value-le_bytes}

decoded-node_key : (id s : ℕ) → id < 2 ^ 64 → node_id_from_key (node_key id s) s ≡ some id
unfolding node_id_from_key node_key byte_at le_bytes le_value
decoded-node_key id s h = ground (arith, le_value-le_bytes 8 id h)

encoded_of_decoded :
    (key : Bytes) (s id : ℕ) → AreBytes key → node_id_from_key key s ≡ some id → key ≡ node_key id s
unfolding node_id_from_key node_key byte_at
encoded_of_decoded (k ∷ a ∷ b ∷ c ∷ d ∷ e ∷ f ∷ g ∷ h ∷ t ∷ []) s id bytes p =
    let number = a ∷ b ∷ c ∷ d ∷ e ∷ f ∷ g ∷ h ∷ [] in
    ground (arith, le_bytes-le_value number (omega arith))
encoded_of_decoded key s id bytes p = absurd (ground arith)

-- `NodeIdFromKey` accepts a key for a suffix exactly when it is the key that `NodeKey` makes of a
-- 64-bit id and that suffix, and it then returns that id.
pub node_id_from_key_iff :
    (key : Bytes) (s id : ℕ)
    → AreBytes key
    → id < 2 ^ 64
    → (node_id_from_key key s ≡ some id) ↔ (key ≡ node_key id s)
node_id_from_key_iff key s id bytes h =
    (encoded_of_decoded key s id bytes, λ e. rw e (decoded-node_key id s h))

last_of_node_key : (id s : ℕ) → byte_at (node_key id s) 9 ≡ s
unfolding byte_at node_key le_bytes
last_of_node_key id s = refl

pub node_key-cons : (id s : ℕ) → (rest : Bytes) × (node_key id s ≡ b'n' ∷ rest)
unfolding node_key
node_key-cons id s = (_, refl)

-- Two nodes, or two suffixes, never share a key.
pub node_key_injective :
    (id s id' s' : ℕ)
    → id < 2 ^ 64
    → id' < 2 ^ 64
    → node_key id s ≡ node_key id' s'
    → (id ≡ id') × (s ≡ s')
node_key_injective id s id' s' h h' e =
    let suffix : s ≡ s' =
      cc (last_of_node_key id s, last_of_node_key id' s', ap (λ k. byte_at k 9) e) in
    (
      cc (decoded-node_key id s h, decoded-node_key id' s' h', ap₂ node_id_from_key e suffix),
      suffix,
    )
