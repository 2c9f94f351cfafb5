-- ===== src/Shard/Manager/Tests.antt =====
-- Two caches, of which the one that was used longest ago is dropped.
use semadb.Base.{[], refl, ◌++◌, ◌∷◌, ◌≡◌, ◌≤◌, ℕ}
use semadb.Base.Assoc.{lookup, remove}
use semadb.Conversion.{Bytes}
use semadb.Diskstore.Order.{bytes_key}
use semadb.Shard.Manager.{
  Caches, SharedCacheElem, by_access, insert_by_access, prune_oldest, prune_to, total_size,
}
use semadb.Shard.Manager.ByAccess.{OldestFirst}
use semadb.Shard.Manager.Pruned.{prune_to_lem}

abbrev recent : SharedCacheElem ℕ
recent = record { item = 60; last_accessed = 9 }

abbrev two_caches : Caches ℕ
two_caches = (b'a' ∷ [], recent) ∷ (b'b' ∷ [], record { item = 70; last_accessed = 4 }) ∷ []

prune_to_lem_example :
    (total_size (λ n. n) (prune_to (λ n. n) 100 two_caches) ≤ 100)
    × ((dropped : Caches ℕ) × (kept : Caches ℕ) × OldestFirst (dropped ++ kept)
        × ((j : Bytes) → lookup j two_caches ≡ lookup j (dropped ++ kept))
        × ((j : Bytes) → lookup j (prune_to (λ n. n) 100 two_caches) ≡ lookup j kept))
unfolding lookup
prune_to_lem_example = prune_to_lem (λ n. n) 100 two_caches (refl, (refl, tt)) refl

after_prune : prune_to (λ n. n) 100 two_caches ≡ (b'a' ∷ [], recent) ∷ []
unfolding prune_to prune_oldest by_access insert_by_access total_size remove
after_prune = refl
