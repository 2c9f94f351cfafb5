-- ===== src/Cluster/Route/Answered.antt =====
-- A routed request without an error is the handler's, but for attempts that all find the connection shut.
use semadb.Base.{List, [], arith, false, inl, inr, refl, ◌≡◌, ◌⊎◌, ◌∷◌}
use semadb.Base.Result.{Result, ok}
use semadb.Cluster.Route.{
  Attempt, after, answered, internal_route, failed, out_of_time, outcome, shutdown,
}

-- every attempt finds the connection shut down
abbrev pub AllShut : List Attempt → Type 0
AllShut [] = Unit {0}
AllShut (shutdown ran ∷ attempts) = AllShut attempts
AllShut (failed ran ∷ attempts) = ⊥
AllShut (out_of_time ran ∷ attempts) = ⊥
AllShut (answered ∷ attempts) = ⊥

-- a request that gets through, after attempts that were not carried out
abbrev pub GetsThrough : List Attempt → Type 0
GetsThrough [] = ⊥
GetsThrough (shutdown ran ∷ attempts) = (ran ≡ false) × GetsThrough attempts
GetsThrough (failed ran ∷ attempts) = ⊥
GetsThrough (out_of_time ran ∷ attempts) = ⊥
GetsThrough (answered ∷ attempts) = Unit {0}

module _ {S A : Type 0} (remote : S → Result (A × S)) where
  pub outcome_ok :
      (a : A) (s : S) → (outcome remote s).0 ≡ ok a → remote s ≡ ok (a, (outcome remote s).1)
  unfolding outcome
  outcome_ok a s e = ground arith

  -- If a routed request ends without an error, then its reply and the state behind it are those of the
  -- handler on some state, or every attempt found the connection shut down; and in that case it does end
  -- without an error, with the reply that was blank before.
  pub internal_route_lem :
      (blank a : A) (attempts : List Attempt) (s : S)
      → ((internal_route remote blank attempts s).0 ≡ ok a
          → ((s₀ : S) × (remote s₀ ≡ ok (a, (internal_route remote blank attempts s).1)))
            ⊎ AllShut attempts)
        × (AllShut attempts → (internal_route remote blank attempts s).0 ≡ ok blank)
  unfolding internal_route
  internal_route_lem blank a [] s = (λ e. inr tt, λ h. refl)
  internal_route_lem blank a (failed ran ∷ attempts) s = (λ e. absurd (ground arith), λ h. absurd h)
  internal_route_lem blank a (shutdown ran ∷ attempts) s =
      internal_route_lem blank a attempts (after remote ran s)
  internal_route_lem blank a (out_of_time ran ∷ attempts) s =
      (λ e. absurd (ground arith), λ h. absurd h)
  internal_route_lem blank a (answered ∷ attempts) s =
      (λ e. inl (s, outcome_ok a s e), λ h. absurd h)

  pub internal_route-GetsThrough :
      (blank : A) (attempts : List Attempt) (s : S)
      → GetsThrough attempts
      → internal_route remote blank attempts s ≡ outcome remote s
  unfolding internal_route after
  internal_route-GetsThrough blank [] s h = absurd h
  internal_route-GetsThrough blank (failed ran ∷ attempts) s h = absurd h
  internal_route-GetsThrough blank (out_of_time ran ∷ attempts) s h = absurd h
  internal_route-GetsThrough blank (answered ∷ attempts) s h = refl
  internal_route-GetsThrough blank (shutdown ran ∷ attempts) s h =
      rw h.0 (internal_route-GetsThrough blank attempts s h.1)
