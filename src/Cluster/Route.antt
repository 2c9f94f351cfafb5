-- ===== src/Cluster/Route.antt =====
-- `internalRoute` of cluster/rpc.go: a request to another server, tried again while the connection is
-- found to be shut down. What becomes of each of the attempts that the configuration allows is a
-- parameter; a request whose answer is lost may have been carried out or not.
pub mod Answered
use semadb.Base.{Bool, List, [], false, true, ◌∷◌}
use semadb.Base.Result.{Error, Result, err, ok, other, panic, timed_out}

-- `failed`: there is no client, or the call ends with another error than that of a connection shut down
pub data Attempt : Type 0 where
  failed shutdown out_of_time : (ran : Bool) → Attempt
  answered : Attempt

module _ {S A : Type 0} (remote : S → Result (A × S)) where
  -- the state after a handler that may have run
  unfoldable pub after : Bool → S → S
  after false s = s
  after true s = elim (remote s) [ panic ↦ s | err e ↦ s | ok (a, s') ↦ s' ]

  -- the outcome of the handler, which the server rolls back if it fails
  unfoldable pub outcome : S → Result A × S
  outcome s = elim (remote s) [ panic ↦ (panic, s) | err e ↦ (err e, s) | ok (a, s') ↦ (ok a, s') ]

  -- The reply is blank before the call. A loop that runs out of attempts returns no error.
  unfoldable pub internal_route : A → List Attempt → S → Result A × S
  internal_route blank [] s = (ok blank, s)
  internal_route blank (failed ran ∷ attempts) s = (err other, after ran s)
  internal_route blank (shutdown ran ∷ attempts) s = internal_route blank attempts (after ran s)
  internal_route blank (out_of_time ran ∷ attempts) s = (err timed_out, after ran s)
  internal_route blank (answered ∷ attempts) s = outcome s
