-- ===== src/Futures/Promise/Join.antt =====
-- bipolar/futures/internal/adaptor.hpp: `JoinVectorContinuation`, the continuation behind
-- `join_promise_vector`. An index past the end of the results, which the code leaves undefined, is
-- `aborts`; the results that are moved out leave an empty vector behind.
pub mod Laws
use bipolar.Common.{Bool, true, false, ◌&&◌, if◌then◌else◌, List, [], ◌∷◌, Option, map}
use bipolar.Common.Outcome.{Outcome, returns, aborts, ◌>>=◌}
use bipolar.Core.Result.{Result, pending, ok, err, to_bool}
use bipolar.Futures.Promise.{Continuation, call}

pub record JoinVector (S T E : Type 0) : Type 0 where
  pub promises : List (Option S)
  pub results : List (Result T E)

-- The constructor: as many pending results as promises.
unfoldable pub join_promise_vector : {S T E : Type 0} → List (Option S) → JoinVector S T E
join_promise_vector ps = record { promises = ps; results = map (λ p. pending) ps }

module _ {C S T E : Type 0} where
  -- The loop from an index on; the first component is `done` as far as this part goes.
  unfoldable pub pass :
      Continuation C S T E
      → List (Option S)
      → List (Result T E)
      → C
      → Outcome (Bool × List (Option S) × List (Result T E) × C)
  unfolding call to_bool
  pass run [] rs ctx = returns (true, [], rs, ctx)
  pass run (p ∷ ps) [] ctx = aborts
  pass run (p ∷ ps) (pending ∷ rs) ctx = do
    (r, p', ctx1) ← call run p ctx
    (done, ps', rs', ctx2) ← pass run ps rs ctx1
    returns (to_bool r && done, p' ∷ ps', r ∷ rs', ctx2)
  pass run (p ∷ ps) (ok x ∷ rs) ctx = do
    (done, ps', rs', ctx1) ← pass run ps rs ctx
    returns (done, p ∷ ps', ok x ∷ rs', ctx1)
  pass run (p ∷ ps) (err e ∷ rs) ctx = do
    (done, ps', rs', ctx1) ← pass run ps rs ctx
    returns (done, p ∷ ps', err e ∷ rs', ctx1)

  -- `operator()`.
  unfoldable pub join_run :
      Continuation C S T E → Continuation C (JoinVector S T E) (List (Result T E)) (Unit {0})
  unfolding pass
  join_run run st ctx = do
    (done, ps, rs, ctx') ← pass run st.promises st.results ctx
    (if done
        then returns (ok rs, record { promises = ps; results = [] }, ctx')
        else returns (pending, record { promises = ps; results = rs }, ctx'))
