-- ===== src/Cluster/Hashing.antt =====
-- `RendezvousHash` of cluster/hashing.go: the servers for a key, by the hash of the key and the server.
-- The 64-bit hash function is a parameter. The sort of the Go library leaves the order of servers of
-- one score open; here they keep theirs.
pub mod Chosen
pub mod Removal
mod Tests
use semadb.Base.{List, [], if◌then◌else◌, length, ltb, map, take, ℕ, ◌++◌, ◌∷◌}
use semadb.Conversion.{Bytes}

pub record ServerScore : Type 0 where
  pub server : Bytes
  pub score : ℕ

module _ (sum64_string : Bytes → ℕ) where
  -- the loop that scores the servers
  unfoldable pub score_servers : Bytes → List Bytes → List ServerScore
  score_servers key [] = []
  score_servers key (s ∷ servers) =
      record { server = s; score = sum64_string (key ++ s) } ∷ score_servers key servers

-- `slices.SortFunc` by the score
unfoldable pub place : ServerScore → List ServerScore → List ServerScore
place x [] = x ∷ []
place x (y ∷ l) = if ltb y.score x.score then y ∷ place x l else x ∷ y ∷ l

unfoldable pub sort_scores : List ServerScore → List ServerScore
sort_scores [] = []
sort_scores (x ∷ l) = place x (sort_scores l)

module _ (sum64_string : Bytes → ℕ) where
  unfoldable pub rendezvous_hash : Bytes → List Bytes → ℕ → List Bytes
  rendezvous_hash key servers top_k =
      let res_size = if ltb top_k (length servers) then top_k else length servers in
      take res_size (map (λ x. x.server) (sort_scores (score_servers sum64_string key servers)))
