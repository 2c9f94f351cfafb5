-- ===== src/Cluster/Hashing/Tests.antt =====
-- Three servers for one key; the hash of the tests is the last byte.
use mathlib.Core.List.{Perm}
use semadb.Base.{List, [], false, length, map, refl, ℕ, ◌++◌, ◌≡◌, ◌∷◌}
use semadb.Cluster.Failed.Exact.{among}
use semadb.Cluster.Hashing.{ServerScore, place, rendezvous_hash, score_servers, sort_scores}
use semadb.Cluster.Hashing.Chosen.{Ascending, rendezvous_hash-Ascending}
use semadb.Cluster.Hashing.Removal.{rendezvous_hash-without, without}
use semadb.Conversion.{Bytes}

abbrev last_byte : Bytes → ℕ
last_byte [] = 0
last_byte (x ∷ []) = x
last_byte (x ∷ y ∷ l) = last_byte (y ∷ l)

abbrev servers : List Bytes
servers = (3 ∷ []) ∷ (1 ∷ []) ∷ (2 ∷ []) ∷ []

lowest_two : rendezvous_hash last_byte (9 ∷ []) servers 2 ≡ (1 ∷ []) ∷ (2 ∷ []) ∷ []
unfolding rendezvous_hash score_servers sort_scores place
lowest_two = refl

unchosen : among (3 ∷ []) (rendezvous_hash last_byte (9 ∷ []) servers 2) ≡ false
unfolding rendezvous_hash score_servers sort_scores place among
unchosen = refl

rendezvous_hash-Ascending_example :
    (chosen others : List ServerScore) × (rendezvous_hash last_byte (9 ∷ []) servers 2
      ≡ map (λ x. x.server) chosen)
    × Perm (chosen ++ others) (score_servers last_byte (9 ∷ []) servers)
    × Ascending (chosen ++ others)
    × (length chosen ≡ 2)
rendezvous_hash-Ascending_example = rendezvous_hash-Ascending last_byte (9 ∷ []) servers 2

rendezvous_hash-without_example :
    rendezvous_hash last_byte (9 ∷ []) (without (3 ∷ []) servers) 2
    ≡ rendezvous_hash last_byte (9 ∷ []) servers 2
rendezvous_hash-without_example =
    rendezvous_hash-without last_byte (9 ∷ []) (3 ∷ []) servers 2 unchosen
