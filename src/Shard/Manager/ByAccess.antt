-- ===== src/Shard/Manager/ByAccess.antt =====
-- The caches in the order of their last access.
use semadb.Base.{
  Bool-cases, [], arith, if◌then◌else◌, inl, inr, ltb, none, refl, some, ℕ, ◌∙◌, ◌∷◌, ◌≡◌, ◌≤◌,
}
use semadb.Base.Assoc.{UniqueKeys, lookup}
use semadb.Conversion.{Bytes}
use semadb.Diskstore.Order.{bytes_eq, bytes_eq_comm, bytes_eq_iff, bytes_eq_refl, bytes_key}
use semadb.Shard.Manager.{Caches, SharedCacheElem, by_access, insert_by_access}

module _ {C : Type 0} where
  -- every cache was used no earlier than the time
  abbrev pub AllSince : ℕ → Caches C → Type 0
  AllSince t [] = Unit {0}
  AllSince t ((n, e) ∷ l) = (t ≤ e.last_accessed) × AllSince t l

  -- the caches that were used longest ago come first
  abbrev pub OldestFirst : Caches C → Type 0
  OldestFirst [] = Unit {0}
  OldestFirst ((n, e) ∷ l) = AllSince e.last_accessed l × OldestFirst l

  AllSince-le : (s t : ℕ) (l : Caches C) → s ≤ t → AllSince t l → AllSince s l
  AllSince-le s t [] h a = tt
  AllSince-le s t ((n, e) ∷ l) h a = (omega (arith, a.0), AllSince-le s t l h a.1)

  AllSince-insert_by_access :
      (t : ℕ) (n : Bytes) (e : SharedCacheElem C) (l : Caches C)
      → t ≤ e.last_accessed
      → AllSince t l
      → AllSince t (insert_by_access n e l)
  unfolding insert_by_access
  AllSince-insert_by_access t n e [] h a = (h, tt)
  AllSince-insert_by_access t n e ((k, f) ∷ l) h a =
      elim (Bool-cases (ltb f.last_accessed e.last_accessed)) [
        | inl later ↦ rw later (a.0, AllSince-insert_by_access t n e l h a.1)
        | inr first ↦ rw first (h, a)
      ]

  OldestFirst-insert_by_access :
      (n : Bytes) (e : SharedCacheElem C) (l : Caches C)
      → OldestFirst l
      → OldestFirst (insert_by_access n e l)
  unfolding insert_by_access
  OldestFirst-insert_by_access n e [] o = (tt, tt)
  OldestFirst-insert_by_access n e ((k, f) ∷ l) o =
      elim (Bool-cases (ltb f.last_accessed e.last_accessed)) [
        | inl later ↦ rw later (
          AllSince-insert_by_access f.last_accessed n e l (ground arith) o.0,
          OldestFirst-insert_by_access n e l o.1,
        )
        | inr first ↦
            let before : e.last_accessed ≤ f.last_accessed = ground arith in
            rw first ((before, AllSince-le e.last_accessed f.last_accessed l before o.0), o)
      ]

  pub by_access-OldestFirst : (m : Caches C) → OldestFirst (by_access m)
  unfolding by_access
  by_access-OldestFirst [] = tt
  by_access-OldestFirst ((n, e) ∷ m) =
      OldestFirst-insert_by_access n e (by_access m) (by_access-OldestFirst m)

  lookup-insert_by_access :
      (n j : Bytes) (e : SharedCacheElem C) (l : Caches C)
      → lookup n l ≡ none
      → lookup j (insert_by_access n e l) ≡ (if bytes_eq n j then some e else lookup j l)
  unfolding insert_by_access lookup
  lookup-insert_by_access n j e [] h = refl
  lookup-insert_by_access n j e ((k, f) ∷ l) h =
      ground (
        arith,
        lookup-insert_by_access n j e l,
        bytes_eq_iff n j,
        bytes_eq_iff k j,
        bytes_eq_iff k n,
      )

  pub lookup-by_access :
      (j : Bytes) (m : Caches C) → UniqueKeys m → lookup j (by_access m) ≡ lookup j m
  unfolding by_access lookup
  lookup-by_access j [] u = refl
  lookup-by_access j ((n, e) ∷ m) u =
      let absent : lookup n (by_access m) ≡ none = lookup-by_access n m u.1 ∙ u.0 in
      rw (lookup-insert_by_access n j e (by_access m) absent, lookup-by_access j m u.1) refl

  UniqueKeys-insert_by_access :
      (n : Bytes) (e : SharedCacheElem C) (l : Caches C)
      → lookup n l ≡ none
      → UniqueKeys l
      → UniqueKeys (insert_by_access n e l)
  unfolding insert_by_access lookup
  UniqueKeys-insert_by_access n e [] h u = (refl, tt)
  UniqueKeys-insert_by_access n e ((k, f) ∷ l) h u =
      elim (Bool-cases (ltb f.last_accessed e.last_accessed)) [
        | inl later ↦
            let apart : lookup n l ≡ none = ground arith in
            rw later (
              ground (arith, lookup-insert_by_access n k e l apart, u.0, bytes_eq_comm k n),
              UniqueKeys-insert_by_access n e l apart u.1,
            )
        | inr first ↦ rw first (h, u)
      ]

  pub by_access-UniqueKeys : (m : Caches C) → UniqueKeys m → UniqueKeys (by_access m)
  unfolding by_access
  by_access-UniqueKeys [] u = tt
  by_access-UniqueKeys ((n, e) ∷ m) u =
      UniqueKeys-insert_by_access n e (by_access m) (lookup-by_access n m u.1 ∙ u.0)
        (by_access-UniqueKeys m u.1)

  -- a map without keys
  pub nothing_left : (m : Caches C) → ((j : Bytes) → lookup j m ≡ none) → m ≡ []
  unfolding lookup
  nothing_left [] h = refl
  nothing_left ((n, e) ∷ m) h = absurd (ground (arith, h n, bytes_eq_refl n))
