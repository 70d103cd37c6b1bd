-- ===== src/Futures/Promise.antt =====
-- bipolar/futures/promise.hpp: promises over continuations.
--
-- A continuation is a callable object with a state: `run s ctx` gives the result of one call, the
-- new state, and the new context. The context stands for all that a call may act on, the executor
-- behind it included. A promise is an optional continuation, so `Option S`; an empty one throws
-- `OptionEmptyException` when it is called.
pub mod Future
pub mod Adaptor
pub mod Join
pub mod Observe
pub mod Make
pub mod JoinTuple
pub mod Runs
use bipolar.Common.{Bool, true, false, Option, none, some, if◌then◌else◌}
use bipolar.Common.Outcome.{Outcome, returns, throws, ◌>>=◌}
use bipolar.Core.Result.{Result, pending, ok, err, is_pending}
use bipolar.Core.Option

-- `Result<T, E>(Context&)`, with the state `S`.
abbrev pub Continuation : Type 0 → Type 0 → Type 0 → Type 0 → Type 0
Continuation C S T E = S → C → Outcome (Result T E × S × C)

module _ {C S T E : Type 0} where
  -- `PromiseImpl::operator()`: a result that is not pending clears the continuation.
  unfoldable pub call : Continuation C S T E → Option S → C → Outcome (Result T E × Option S × C)
  unfolding is_pending
  call run none ctx = throws none
  call run (some s) ctx = do
    (result, s', ctx') ← run s ctx
    returns (result, if is_pending result then some s' else none, ctx')

-- `PromiseImpl::take_continuation`: the continuation, then what is left of the promise.
unfoldable pub take_continuation : {S : Type 0} → Option S → Outcome (S × Option S)
take_continuation none = throws none
take_continuation (some s) = returns (s, none)
