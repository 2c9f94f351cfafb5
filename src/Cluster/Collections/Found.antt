-- ===== src/Cluster/Collections/Found.antt =====
-- A collection that one node has created is found by every other.
use semadb.Base.{
  ap₂, Bool-cases, Option-cases, arith, inl, inr, leb, length, none, refl, some, true, ◌≡◌, ◌∙◌,
  if◌then◌else◌, ap, sym, ℕ,
}
use semadb.Base.Result.{Result, bind_ok, ok_injective, ok, panic}
use semadb.Cluster.Collections.{
  Codec, Created, Node, Nodes, already_exists, at_host, call, create_collection, create_transaction,
  created, created_or_error, destination, found_or_error, get_collection, quota_is_reached,
  rpc_create_collection, rpc_get_collection,
}
use semadb.Cluster.Collections.Quota.{key_of}
use semadb.Cluster.Collections.Stored.{scan_count, entries_of}
use semadb.Cluster.Route.{internal_route, outcome}
use semadb.Cluster.Route.Answered.{
  AllShut, GetsThrough, internal_route-GetsThrough, internal_route_lem, outcome_ok,
}
use semadb.Conversion.{Bytes}
use semadb.Diskstore.{MemBucket, get, put}
use semadb.Diskstore.Laws.{after_put, get-after_put, put-cases}
use semadb.Diskstore.Order.{bytes_eq, bytes_eq_iff}
use semadb.Models.{Collection}

module _ {A : Type 0} (dest : Bytes) (handler : MemBucket → Result (A × MemBucket)) where
  at_host_ok :
      (a : A) (nodes nodes' : Nodes)
      → at_host dest handler nodes ≡ ok (a, nodes')
      → (b : MemBucket) × (handler b ≡ ok (a, nodes' dest))
  unfolding at_host
  at_host_ok a nodes nodes' e =
      let write : A × MemBucket → Result (A × Nodes) =
        λ (reply, b'). ok (reply, λ h. if bytes_eq dest h then b' else nodes h) in
      let ((reply, b'), handled, rest) = bind_ok (handler (nodes dest)) write (a, nodes') e in
      let same = ok_injective _ _ rest in
      let here : bytes_eq dest dest ≡ true = (bytes_eq_iff dest dest).1 refl in
      let state : b' ≡ nodes' dest = rw (← ap (λ p. p.1 dest) same) (rw here refl) in
      (nodes dest, handled ∙ ap ok (ap₂ (λ x y. (x, y)) (ap (λ p. p.0) same) state))

  at_host-outcome :
      (a : A) (b : MemBucket) (nodes : Nodes)
      → handler (nodes dest) ≡ ok (a, b)
      → (outcome (at_host dest handler) nodes).0 ≡ ok a
  unfolding at_host outcome
  at_host-outcome a b nodes e = rw (outcome, at_host, e) refl

rpc_create_collection_created :
    (codec : Codec) (col : Collection) (b b' : MemBucket)
    → rpc_create_collection codec col b ≡ ok (created, b')
    → (v : Bytes) × (codec.marshal col ≡ some v) × (get b' (key_of col) ≡ some v)
unfolding rpc_create_collection create_transaction
rpc_create_collection_created codec col b b' e = elim (Option-cases (codec.marshal col)) [
  | inl fails ↦ let failed = rw (rpc_create_collection, fails) at e in absurd (ground arith)
  | inr (v, encodes) ↦ elim (Option-cases (get b (key_of col))) [
    | inr (w, found) ↦
        let kept = rw (rpc_create_collection, encodes, create_transaction, found) at e in
        absurd (ground arith)
    | inl fresh ↦
        elim (Bool-cases (leb col.user_plan.max_collections (length (entries_of col.user_id b)))) [
          | inl reached ↦
              let full =
                rw
                  (
                    rpc_create_collection,
                    encodes,
                    create_transaction,
                    fresh,
                    scan_count b col.user_id,
                    reached,
                  )
                  at e in
              absurd (ground arith)
          | inr free ↦
              let written =
                rw
                  (
                    rpc_create_collection,
                    encodes,
                    create_transaction,
                    fresh,
                    scan_count b col.user_id,
                    free,
                  )
                  at e in
              let (b'', stored, same) = bind_ok (put b (key_of col) v) _ (created, b') written in
              let after : after_put b (key_of col) v ≡ b' = elim (put-cases b (key_of col) v) [
                | inl refused ↦ absurd (ground arith)
                | inr put_ok ↦
                    ok_injective _ _ (sym put_ok ∙ stored) ∙ ap (λ p. p.1) (ok_injective _ _ same)
              ] in
              (
                v,
                encodes,
                rw (← after) (
                    get-after_put b (key_of col) v (key_of col)
                    ∙ rw ((bytes_eq_iff (key_of col) (key_of col)).1 refl) refl),
              )
        ]
  ]
]

module _ (sum64_string : Bytes → ℕ) (codec : Codec) {A : Type 0} (user_id : Bytes) (blank : A)
    (handler : MemBucket → Result (A × MemBucket)) where
  call_at :
      (c : Node) (dest : Bytes) (nodes : Nodes)
      → destination sum64_string codec c user_id ≡ some dest
      → call sum64_string codec c user_id blank handler nodes ≡ (
          if bytes_eq dest c.my_hostname
          then outcome (at_host dest handler) nodes
          else internal_route (at_host dest handler) blank c.attempts nodes)
  unfolding call
  call_at c dest nodes chosen = rw (call, chosen) refl

  call_nowhere :
      (c : Node) (nodes : Nodes)
      → destination sum64_string codec c user_id ≡ none
      → call sum64_string codec c user_id blank handler nodes ≡ (panic, nodes)
  unfolding call
  call_nowhere c nodes nowhere = rw (call, nowhere) refl

  -- a call that ends without an error was handled on the node that the user's key chooses
  call_ok :
      (c : Node) (a : A) (nodes : Nodes)
      → (AllShut c.attempts → ⊥)
      → (call sum64_string codec c user_id blank handler nodes).0 ≡ ok a
      → (dest : Bytes) × (b : MemBucket) × (destination sum64_string codec c user_id ≡ some dest)
        × (handler b ≡ ok (a, (call sum64_string codec c user_id blank handler nodes).1 dest))
  call_ok c a nodes open_ e = elim (Option-cases (destination sum64_string codec c user_id)) [
    | inl nowhere ↦ let failed = rw (call_nowhere c nodes nowhere) at e in absurd (ground arith)
    | inr (dest, chosen) ↦ elim (Bool-cases (bytes_eq dest c.my_hostname)) [
      | inl here ↦
          let run = rw (call_at c dest nodes chosen, here) at e in
          let (b, handled) =
            at_host_ok dest handler a nodes _ (outcome_ok (at_host dest handler) a nodes run) in
          (dest, b, chosen, rw (call_at c dest nodes chosen, here) handled)
      | inr there ↦
          let run = rw (call_at c dest nodes chosen, there) at e in
          elim ((internal_route_lem (at_host dest handler) blank a c.attempts nodes).0 run) [
            | inr shut ↦ absurd (open_ shut)
            | inl (nodes₀, handled₀) ↦
                let (b, handled) = at_host_ok dest handler a nodes₀ _ handled₀ in
                (dest, b, chosen, rw (call_at c dest nodes chosen, there) handled)
          ]
    ]
  ]

  -- a call that gets through is handled on that node
  call_through :
      (c : Node) (a : A) (dest : Bytes) (b : MemBucket) (nodes : Nodes)
      → destination sum64_string codec c user_id ≡ some dest
      → GetsThrough c.attempts
      → handler (nodes dest) ≡ ok (a, b)
      → (call sum64_string codec c user_id blank handler nodes).0 ≡ ok a
  call_through c a dest b nodes chosen through handled =
      let run = at_host-outcome dest handler a b nodes handled in
      elim (Bool-cases (bytes_eq dest c.my_hostname)) [
        | inl here ↦ rw (call_at c dest nodes chosen, here) run
        | inr there ↦
            rw
              (
                call_at c dest nodes chosen,
                there,
                internal_route-GetsThrough (at_host dest handler) blank c.attempts nodes through,
              )
              run
      ]

-- a destination is chosen by the servers alone
same_destination :
    (sum64_string : Bytes → ℕ) (codec : Codec) (c d : Node) (user_id : Bytes)
    → c.servers ≡ d.servers
    → destination sum64_string codec c user_id ≡ destination sum64_string codec d user_id
unfolding destination
same_destination sum64_string codec c d user_id same = rw same refl

created_reply :
    (sum64_string : Bytes → ℕ) (codec : Codec) (r : Created)
    → created_or_error sum64_string codec r ≡ ok tt
    → r ≡ created
unfolding created_or_error
created_reply sum64_string codec created e = refl
created_reply sum64_string codec already_exists e = absurd (ground arith)
created_reply sum64_string codec quota_is_reached e = absurd (ground arith)

-- If msgpack decodes the collection from what it encodes it to, a node creates a collection without an error, and not all attempts
-- of its request found the connection shut down, then a node with the same servers whose request gets
-- through finds that collection.
pub created_collection_found :
    (sum64_string : Bytes → ℕ) (codec : Codec) (c d : Node) (col blank : Collection) (nodes : Nodes)
    → ((v : Bytes) → codec.marshal col ≡ some v → codec.unmarshal v ≡ some col)
    → c.servers ≡ d.servers
    → (AllShut c.attempts → ⊥)
    → GetsThrough d.attempts
    → (create_collection sum64_string codec c col nodes).0 ≡ ok tt
    → let nodes' = (create_collection sum64_string codec c col nodes).1 in
      (get_collection sum64_string codec blank d col.user_id col.id nodes').0 ≡ ok col
unfolding create_collection get_collection created_or_error found_or_error rpc_get_collection
created_collection_found sum64_string codec c d col blank nodes decodes same open_ through e =
    let handler = rpc_create_collection codec col in
    let (reply, replied, is_created) = bind_ok _ (created_or_error sum64_string codec) tt e in
    let is_new = created_reply sum64_string codec reply is_created in
    let (dest, b, chosen, handled) =
      call_ok sum64_string codec col.user_id created handler c reply nodes open_ replied in
    let nodes' = (call sum64_string codec c col.user_id created handler nodes).1 in
    let (v, encodes, stored) =
      rpc_create_collection_created codec col b (nodes' dest)
        (handled ∙ ap (λ r. ok (r, nodes' dest)) is_new) in
    let read = rpc_get_collection codec col.user_id col.id in
    let found : read (nodes' dest) ≡ ok (some col, nodes' dest) =
      rw (rpc_get_collection, stored, decodes v encodes) refl in
    rw
      (call_through sum64_string codec col.user_id (some blank) read d (some col) dest (nodes' dest)
        nodes' (sym (same_destination sum64_string codec c d col.user_id same) ∙ chosen) through
        found)
      refl
