-- ===== src/Futures/Promise/Observe.antt =====
-- bipolar/futures/internal/adaptor.hpp: `InspectContinuation` and `DiscardResultContinuation`. The
-- state of both is the promise. An inspector may change the result and the context.
use bipolar.Common.{Option, if◌then◌else◌}
use bipolar.Common.Outcome.{Outcome, returns, ◌>>=◌}
use bipolar.Core.Result.{Result, pending, ok, to_bool}
use bipolar.Futures.Promise.{Continuation, call}

module _ {C S T E : Type 0} where
  unfoldable pub inspect_run :
      (Result T E → C → Outcome (Result T E × C))
      → Continuation C S T E
      → Continuation C (Option S) T E
  unfolding call to_bool
  inspect_run inspector run p ctx = do
    (result, p', ctx') ← call run p ctx
    (if to_bool result
        then inspector result ctx' >>= (λ t. returns (t.0, p', t.1))
        else returns (result, p', ctx'))

  unfoldable pub discard_run :
      Continuation C S T E → Continuation C (Option S) (Unit {0}) (Unit {0})
  unfolding call to_bool
  discard_run run p ctx = do
    (result, p', ctx') ← call run p ctx
    (if to_bool result then returns (ok tt, p', ctx') else returns (pending, p', ctx'))
