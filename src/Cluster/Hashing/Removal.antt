-- ===== src/Cluster/Hashing/Removal.antt =====
-- A server that leaves changes the servers only of the keys that it was chosen for.
use semadb.Base.{
  All, Bool-cases, List, [], ap, arith, false, if◌then◌else◌, inl, inr, length, ltb, map, refl, suc,
  sym, take, take_of_length-le, zero, ℕ, ◌≡◌, ◌≤◌, ◌∙◌, ◌∷◌,
}
use semadb.Cluster.Failed.Exact.{among}
use semadb.Cluster.Hashing.{ServerScore, place, rendezvous_hash, score_servers, sort_scores}
use semadb.Cluster.Hashing.Chosen.{
  above_trans, Ascending, sort_scores-Ascending, length-sort_scores, length-score_servers,
}
use semadb.Conversion.{Bytes}
use semadb.Diskstore.Order.{bytes_eq}

-- the servers other than `s`
unfoldable pub without : Bytes → List Bytes → List Bytes
without s [] = []
without s (x ∷ l) = let rest = without s l in if bytes_eq x s then rest else x ∷ rest

without_score : Bytes → List ServerScore → List ServerScore
without_score s [] = []
without_score s (x ∷ l) =
    let rest = without_score s l in if bytes_eq x.server s then rest else x ∷ rest

score_servers-without :
    (h : Bytes → ℕ) (key s : Bytes) (servers : List Bytes)
    → score_servers h key (without s servers) ≡ without_score s (score_servers h key servers)
unfolding score_servers without without_score
score_servers-without h key s [] = refl
score_servers-without h key s (x ∷ servers) = elim (Bool-cases (bytes_eq x s)) [
  | inl same ↦ rw same (score_servers-without h key s servers)
  | inr other ↦ rw (other, score_servers-without h key s servers) refl
]

map-without :
    (s : Bytes) (l : List ServerScore)
    → map (λ x. x.server) (without_score s l) ≡ without s (map (λ x. x.server) l)
unfolding without without_score
map-without s [] = refl
map-without s (x ∷ l) = elim (Bool-cases (bytes_eq x.server s)) [
  | inl same ↦ rw same (map-without s l)
  | inr other ↦ rw other (ap (◌∷◌ x.server) (map-without s l))
]

-- an item that is not above the others is placed in front
place_front :
    (x : ServerScore) (l : List ServerScore) → All (λ y. x.score ≤ y.score) l → place x l ≡ x ∷ l
unfolding place
place_front x [] a = refl
place_front x (y ∷ l) a = ground arith

All-without_score :
    (a : ℕ) (s : Bytes) (l : List ServerScore)
    → All (λ y. a ≤ y.score) l
    → All (λ y. a ≤ y.score) (without_score s l)
unfolding without_score
All-without_score a s [] l_above = tt
All-without_score a s (y ∷ l) l_above = elim (Bool-cases (bytes_eq y.server s)) [
  | inl same ↦ rw same (All-without_score a s l l_above.1)
  | inr other ↦ rw other (l_above.0, All-without_score a s l l_above.1)
]

without_score-place :
    (s : Bytes) (x : ServerScore) (l : List ServerScore)
    → Ascending l
    → without_score s (place x l)
      ≡ (if bytes_eq x.server s then without_score s l else place x (without_score s l))
unfolding without_score place
without_score-place s x [] a = refl
without_score-place s x (y ∷ l) a = elim (Bool-cases (ltb y.score x.score)) [
  | inl t ↦ elim (Bool-cases (bytes_eq y.server s)) [
    | inl same ↦ rw (t, same) (without_score-place s x l a.1)
    | inr other ↦ elim (Bool-cases (bytes_eq x.server s)) [
      | inl x_same ↦
          rw (t, other, x_same) (ap (◌∷◌ y) (without_score-place s x l a.1 ∙ rw x_same refl))
      | inr x_other ↦
          rw (t, other, x_other, t) (ap (◌∷◌ y) (without_score-place s x l a.1 ∙ rw x_other refl))
    ]
  ]
  | inr f ↦
      let below : x.score ≤ y.score = ground arith in
      let front =
        place_front x (without_score s (y ∷ l))
          (All-without_score x.score s (y ∷ l) (below, above_trans x.score y.score l below a.0)) in
      elim (Bool-cases (bytes_eq x.server s)) [
        | inl x_same ↦ rw (f, x_same) refl
        | inr x_other ↦ rw (f, x_other) (sym front)
      ]
]

sort_scores-without :
    (s : Bytes) (l : List ServerScore)
    → sort_scores (without_score s l) ≡ without_score s (sort_scores l)
unfolding sort_scores without_score
sort_scores-without s [] = refl
sort_scores-without s (x ∷ l) = elim (Bool-cases (bytes_eq x.server s)) [
  | inl same ↦ rw same (
      sort_scores-without s l
      ∙ sym (without_score-place s x (sort_scores l) (sort_scores-Ascending l) ∙ rw same refl))
  | inr other ↦ rw other (
      ap (place x) (sort_scores-without s l)
      ∙ sym (without_score-place s x (sort_scores l) (sort_scores-Ascending l) ∙ rw other refl))
]

take_capped :
    (k n : ℕ) (l : List Bytes) → length l ≡ n → take (if ltb k n then k else n) l ≡ take k l
take_capped k n l sized = elim (Bool-cases (ltb k n)) [
  | inl t ↦ rw t refl
  | inr f ↦ rw f (take_of_length-le n l (omega arith) ∙ sym (take_of_length-le k l (ground arith)))
]

take-without :
    (s : Bytes) (k : ℕ) (l : List Bytes)
    → among s (take k l) ≡ false
    → take k (without s l) ≡ take k l
unfolding without among
take-without s zero l h = refl
take-without s (suc k) [] h = refl
take-without s (suc k) (x ∷ l) h = elim (Bool-cases (bytes_eq x s)) [
  | inl same ↦ absurd (ground arith)
  | inr other ↦ rw other (ap (◌∷◌ x) (take-without s k l (ground arith)))
]

length-map : (l : List ServerScore) → length (map (λ x. x.server) l) ≡ length l
length-map [] = refl
length-map (x ∷ l) = ap suc (length-map l)

rendezvous_hash-take :
    (h : Bytes → ℕ) (key : Bytes) (servers : List Bytes) (k : ℕ)
    → rendezvous_hash h key servers k
      ≡ take k (map (λ x. x.server) (sort_scores (score_servers h key servers)))
unfolding rendezvous_hash
rendezvous_hash-take h key servers k =
    take_capped k (length servers) (map (λ x. x.server) (sort_scores (score_servers h key servers)))
      (length-map (sort_scores (score_servers h key servers))
        ∙ length-sort_scores (score_servers h key servers)
        ∙ length-score_servers h key servers)

-- If a server is not among those of a key, the servers of the key stay the same, in the same order,
-- when that server is taken away, however often it is given.
pub rendezvous_hash-without :
    (sum64_string : Bytes → ℕ) (key s : Bytes) (servers : List Bytes) (top_k : ℕ)
    → among s (rendezvous_hash sum64_string key servers top_k) ≡ false
    → rendezvous_hash sum64_string key (without s servers) top_k
      ≡ rendezvous_hash sum64_string key servers top_k
rendezvous_hash-without h key s servers k unchosen =
    let scored = score_servers h key servers in
    let first : among s (take k (map (λ x. x.server) (sort_scores scored))) ≡ false =
      ap (among s) (sym (rendezvous_hash-take h key servers k)) ∙ unchosen in
    rendezvous_hash-take h key (without s servers) k
    ∙ ap (λ l. take k (map (λ x. x.server) (sort_scores l))) (score_servers-without h key s servers)
    ∙ ap (λ l. take k (map (λ x. x.server) l)) (sort_scores-without s scored)
    ∙ ap (take k) (map-without s (sort_scores scored))
    ∙ take-without s k (map (λ x. x.server) (sort_scores scored)) first
    ∙ sym (rendezvous_hash-take h key servers k)
