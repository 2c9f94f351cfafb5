-- ===== src/Cluster/Hashing/Chosen.antt =====
-- The servers that are chosen are those of the lowest scores, in order.
use mathlib.Core.List.{Perm}
use mathlib.Core.List.Perm
use semadb.Base.{
  All, Bool-cases, List, [], ap, arith, drop, if◌then◌else◌, inl, inr, length, ltb, map, refl, suc,
  take, take-append-drop, zero, ℕ, ◌++◌, ◌≡◌, ◌≤◌, ◌∙◌, ◌∷◌,
}
use semadb.Cluster.Hashing.{ServerScore, place, rendezvous_hash, score_servers, sort_scores}
use semadb.Conversion.{Bytes}

-- each score is at most those behind it
abbrev pub Ascending : List ServerScore → Type 0
Ascending [] = Unit {0}
Ascending (x ∷ l) = All (λ y. x.score ≤ y.score) l × Ascending l

pub above_trans :
    (a b : ℕ) (l : List ServerScore) → a ≤ b → All (λ y. b ≤ y.score) l → All (λ y. a ≤ y.score) l
above_trans a b [] h l_above = tt
above_trans a b (y ∷ l) h l_above = (omega arith, above_trans a b l h l_above.1)

above-place :
    (a : ℕ) (x : ServerScore) (l : List ServerScore)
    → a ≤ x.score
    → All (λ y. a ≤ y.score) l
    → All (λ y. a ≤ y.score) (place x l)
unfolding place
above-place a x [] h l_above = (h, tt)
above-place a x (y ∷ l) h l_above = elim (Bool-cases (ltb y.score x.score)) [
  | inl t ↦ rw t (l_above.0, above-place a x l h l_above.1)
  | inr f ↦ rw f (h, l_above)
]

place-Ascending : (x : ServerScore) (l : List ServerScore) → Ascending l → Ascending (place x l)
unfolding place
place-Ascending x [] a = (tt, tt)
place-Ascending x (y ∷ l) a = elim (Bool-cases (ltb y.score x.score)) [
  | inl t ↦
      let below : y.score ≤ x.score = ground arith in
      rw t (above-place y.score x l below a.0, place-Ascending x l a.1)
  | inr f ↦
      let below : x.score ≤ y.score = ground arith in
      rw f ((below, above_trans x.score y.score l below a.0), a)
]

pub sort_scores-Ascending : (l : List ServerScore) → Ascending (sort_scores l)
unfolding sort_scores
sort_scores-Ascending [] = tt
sort_scores-Ascending (x ∷ l) = place-Ascending x (sort_scores l) (sort_scores-Ascending l)

place-perm : (x : ServerScore) (l : List ServerScore) → Perm (place x l) (x ∷ l)
unfolding place
place-perm x [] = Perm.refl (x ∷ [])
place-perm x (y ∷ l) = elim (Bool-cases (ltb y.score x.score)) [
  | inl t ↦ rw t (Perm.trans (Perm.cons y (place-perm x l)) (Perm.swap x y l))
  | inr f ↦ rw f (Perm.refl (x ∷ y ∷ l))
]

sort_scores-perm : (l : List ServerScore) → Perm (sort_scores l) l
unfolding sort_scores
sort_scores-perm [] = Perm.refl []
sort_scores-perm (x ∷ l) =
    Perm.trans (place-perm x (sort_scores l)) (Perm.cons x (sort_scores-perm l))

map-take :
    (n : ℕ) (l : List ServerScore) → take n (map (λ x. x.server) l) ≡ map (λ x. x.server) (take n l)
map-take zero l = refl
map-take (suc n) [] = refl
map-take (suc n) (x ∷ l) = ap (◌∷◌ x.server) (map-take n l)

length-take :
    (n : ℕ) (l : List ServerScore) → length (take n l) ≡ (if ltb n (length l) then n else length l)
length-take zero l = ground arith
length-take (suc n) [] = ground arith
length-take (suc n) (x ∷ l) = ground (arith, length-take n l)

length-place : (x : ServerScore) (l : List ServerScore) → length (place x l) ≡ suc (length l)
unfolding place
length-place x [] = refl
length-place x (y ∷ l) = ground (arith, length-place x l)

pub length-sort_scores : (l : List ServerScore) → length (sort_scores l) ≡ length l
unfolding sort_scores
length-sort_scores [] = refl
length-sort_scores (x ∷ l) = length-place x (sort_scores l) ∙ ap suc (length-sort_scores l)

pub length-score_servers :
    (h : Bytes → ℕ) (key : Bytes) (servers : List Bytes)
    → length (score_servers h key servers) ≡ length servers
unfolding score_servers
length-score_servers h key [] = refl
length-score_servers h key (s ∷ servers) = ap suc (length-score_servers h key servers)

-- The servers of a key are the first of a list that has all servers with their scores, each as often
-- as it is given, in ascending order of the scores; and they are as many as asked for, or all.
pub rendezvous_hash-Ascending :
    (sum64_string : Bytes → ℕ) (key : Bytes) (servers : List Bytes) (top_k : ℕ)
    → (chosen others : List ServerScore) × (rendezvous_hash sum64_string key servers top_k
        ≡ map (λ x. x.server) chosen)
      × Perm (chosen ++ others) (score_servers sum64_string key servers)
      × Ascending (chosen ++ others)
      × (length chosen ≡ (if ltb top_k (length servers) then top_k else length servers))
unfolding rendezvous_hash
rendezvous_hash-Ascending h key servers top_k =
    let sorted = sort_scores (score_servers h key servers) in
    let n = if ltb top_k (length servers) then top_k else length servers in
    let whole : take n sorted ++ drop n sorted ≡ sorted = take-append-drop n sorted in
    let all : length sorted ≡ length servers =
      length-sort_scores (score_servers h key servers) ∙ length-score_servers h key servers in
    (
      take n sorted,
      drop n sorted,
      map-take n sorted,
      rw whole (sort_scores-perm (score_servers h key servers)),
      rw whole (sort_scores-Ascending (score_servers h key servers)),
      ground (arith, length-take n sorted, all),
    )
