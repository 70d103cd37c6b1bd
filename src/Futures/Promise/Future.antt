-- ===== src/Futures/Promise/Future.antt =====
-- bipolar/futures/future_inl.hpp: a future holds nothing, a promise that is still to be called, or
-- a result. A method that changes the future returns it with its result; a failed assertion is
-- `aborts`.
pub mod States
use bipolar.Common.{Bool, true, false, not, Option, none, some, if◌then◌else◌}
use bipolar.Common.Outcome.{Outcome, returns, throws, aborts, ◌>>=◌}
use bipolar.Core.Result.{Result, to_bool}
use bipolar.Core.Result
use bipolar.Futures.Promise.{Continuation, call}

pub data FutureState : Type 0 where
  empty pending ok error : FutureState

-- The variant `state_`. The promise of the second alternative is its continuation.
pub data Future (S T E : Type 0) : Type 0 where
  nothing : Future S T E
  waiting : Option S → Future S T E
  ready : Result T E → Future S T E

module _ {S T E : Type 0} where
  -- `FutureImpl(promise_type)` and the assignment of a promise.
  unfoldable pub of_promise : Option S → Future S T E
  of_promise none = nothing
  of_promise (some s) = waiting (some s)

  -- `FutureImpl(result_type)` and the assignment of a result.
  unfoldable pub of_result : Result T E → Future S T E
  unfolding to_bool
  of_result r = if to_bool r then ready r else nothing

  -- The new future, then `rhs`.
  unfoldable pub move : Future S T E → Future S T E × Future S T E
  move rhs = (rhs, nothing)

  unfoldable pub state : Future S T E → FutureState
  unfolding Result.is_ok
  state nothing = empty
  state (waiting p) = pending
  state (ready r) = if Result.is_ok r then ok else error

  unfoldable pub is_ok : Future S T E → Bool
  unfolding Result.is_ok
  is_ok nothing = false
  is_ok (waiting p) = false
  is_ok (ready r) = Result.is_ok r

  unfoldable pub is_error : Future S T E → Bool
  unfolding Result.is_ok
  is_error nothing = false
  is_error (waiting p) = false
  is_error (ready r) = not (Result.is_ok r)

  unfoldable pub is_ready : Future S T E → Bool
  is_ready nothing = false
  is_ready (waiting p) = false
  is_ready (ready r) = true

  unfoldable pub take_promise : Future S T E → Outcome (Option S × Future S T E)
  take_promise nothing = aborts
  take_promise (waiting p) = returns (p, nothing)
  take_promise (ready r) = aborts

  -- `result()` of a constant future.
  unfoldable pub result : Future S T E → Outcome (Result T E)
  result nothing = aborts
  result (waiting p) = aborts
  result (ready r) = returns r

  -- The overload that returns a reference: the result, and the future after a write through it.
  unfoldable pub result_ref : Future S T E → Outcome (Result T E × (Result T E → Future S T E))
  result_ref nothing = aborts
  result_ref (waiting p) = aborts
  result_ref (ready r) = returns (r, ready)

  unfoldable pub take_result : Future S T E → Outcome (Result T E × Future S T E)
  take_result nothing = aborts
  take_result (waiting p) = aborts
  take_result (ready r) = returns (r, nothing)

  -- `assert(is_ok())`; the value moves out and the future becomes empty.
  unfoldable pub take_value : Future S T E → Outcome (T × Future S T E)
  take_value (ready (Result.ok x)) = returns (x, nothing)
  take_value _ = aborts

  -- `assert(is_error())`.
  unfoldable pub take_error : Future S T E → Outcome (E × Future S T E)
  take_error nothing = aborts
  take_error (waiting p) = aborts
  take_error (ready Result.pending) = throws none
  take_error (ready (Result.ok x)) = aborts
  take_error (ready (Result.err e)) = returns (e, nothing)

  -- `value()` and `error()` of a constant future.
  unfoldable pub value : Future S T E → Outcome T
  value (ready (Result.ok x)) = returns x
  value _ = aborts

  unfoldable pub error_of : Future S T E → Outcome E
  error_of nothing = aborts
  error_of (waiting p) = aborts
  error_of (ready Result.pending) = throws none
  error_of (ready (Result.ok x)) = aborts
  error_of (ready (Result.err e)) = returns e

  -- The overloads of both that return a reference.
  unfoldable pub value_ref : Future S T E → Outcome (T × (T → Future S T E))
  value_ref (ready (Result.ok x)) = returns (x, λ y. ready (Result.ok y))
  value_ref _ = aborts

  unfoldable pub error_ref : Future S T E → Outcome (E × (E → Future S T E))
  error_ref nothing = aborts
  error_ref (waiting p) = aborts
  error_ref (ready Result.pending) = throws none
  error_ref (ready (Result.ok x)) = aborts
  error_ref (ready (Result.err e)) = returns (e, λ y. ready (Result.err y))

  unfoldable pub is_empty : Future S T E → Bool
  is_empty nothing = true
  is_empty (waiting p) = false
  is_empty (ready r) = false

  unfoldable pub is_pending : Future S T E → Bool
  is_pending nothing = false
  is_pending (waiting p) = true
  is_pending (ready r) = false

  -- `operator bool`, and the comparisons with `nullptr`.
  unfoldable pub has_content : Future S T E → Bool
  unfolding is_empty
  has_content this = not (is_empty this)

  unfoldable pub eq_nullptr : Future S T E → Bool
  unfolding has_content
  eq_nullptr f = not (has_content f)

  unfoldable pub ne_nullptr : Future S T E → Bool
  unfolding has_content
  ne_nullptr f = has_content f

  -- The assignments of `nullptr`, a promise and a result.
  unfoldable pub assign_nullptr : Future S T E → Future S T E
  assign_nullptr this = nothing

  unfoldable pub assign_promise : Option S → Future S T E → Future S T E
  assign_promise none this = nothing
  assign_promise (some s) this = waiting (some s)

  unfoldable pub assign_result : Result T E → Future S T E → Future S T E
  unfolding Result.is_pending
  assign_result result this = if not (Result.is_pending result) then ready result else nothing

  unfoldable pub swap : Future S T E → Future S T E → Future S T E × Future S T E
  swap this rhs = (rhs, this)

  unfoldable pub make_future : Option S → Future S T E
  unfolding of_promise
  make_future p = of_promise p

module _ {C S T E : Type 0} where
  -- What `operator()` makes of the promise's result.
  unfoldable pub settle : Result T E → Option S → C → Bool × Future S T E × C
  unfolding to_bool
  settle result p ctx =
      if to_bool result then (true, ready result, ctx) else (false, waiting p, ctx)

  -- `FutureImpl::operator()`.
  unfoldable pub poll : Continuation C S T E → Future S T E → C → Outcome (Bool × Future S T E × C)
  unfolding call settle
  poll run nothing ctx = returns (false, nothing, ctx)
  poll run (waiting p) ctx = do (result, p', ctx') ← call run p ctx; returns (settle result p' ctx')
  poll run (ready r) ctx = returns (true, ready r, ctx)
