-- ===== src/Futures/Promise/Adaptor.antt =====
-- bipolar/futures/internal/adaptor.hpp: the continuations behind the methods of a promise. A handler
-- is a function of its argument and the context, which may change both, the argument in its place in
-- the future; whether the handler names the context among its parameters makes no difference here.
use bipolar.Common.{not, Option, none, some, if◌then◌else◌}
use bipolar.Common.Outcome.{Outcome, returns, throws, ◌>>=◌}
use bipolar.Core.Result.{Result, pending, ok, err, value, error}
use bipolar.Futures.Promise.{Continuation}
use bipolar.Futures.Promise.Future.{
  Future, poll, result_ref, is_ok, is_error, take_value, take_error,
}

-- An invoker with state `I` turns an argument, which it gets by reference and may change, into a result,
-- once at each call.
abbrev pub Invoker : Type 0 → Type 0 → Type 0 → Type 0 → Type 0 → Type 0
Invoker C I A T E = I × A → C → Outcome (Result T E × (I × A) × C)

-- A handler that returns a result, held by a `MoveOnlyHandler`.
abbrev pub Handler : Type 0 → Type 0 → Type 0 → Type 0 → Type 0
Handler C A T E = A → C → Outcome (Result T E × A × C)

module _ {C A T E : Type 0} where
  -- `NonCallableResultAdaptor`: the handler is called at each call.
  unfoldable pub plain : Invoker C (Option (Handler C A T E)) A T E
  plain (none, a) ctx = throws none
  plain (some h, a) ctx = do (r, a', ctx') ← h a ctx; returns (r, (some h, a'), ctx')

-- `ResultAdaptor` for a handler that returns a continuation: the handler until it is called, then
-- its continuation.
pub record Chained (C A S : Type 0) : Type 0 where
  pub handler : Option (A → C → Outcome ((S × A) × C))
  pub cont : Option S

module _ {C A S : Type 0} where
  -- `if (handler_)`: call it once, and keep the continuation.
  unfoldable pub start :
      Option (A → C → Outcome ((S × A) × C))
      → Chained C A S × A
      → C
      → Outcome ((Chained C A S × A) × C)
  start none i ctx = returns (i, ctx)
  start (some h) (c, a) ctx = do
    ((s, a'), ctx') ← h a ctx
    returns ((record { handler = none; cont = some s }, a'), ctx')

module _ {C A S T E : Type 0} where
  unfoldable pub proceed :
      Continuation C S T E
      → Option S
      → Chained C A S × A
      → C
      → Outcome (Result T E × (Chained C A S × A) × C)
  proceed run none i ctx = returns (pending, i, ctx)
  proceed run (some s) (c, a) ctx = do
    (r, s', ctx') ← run s ctx
    returns (r, (record c { cont = some s' }, a), ctx')

  unfoldable pub chained : Continuation C S T E → Invoker C (Chained C A S) A T E
  unfolding start proceed
  chained run (c, a) ctx = do (i, ctx') ← start c.handler (c, a) ctx; proceed run i.0.cont i ctx'

-- `ThenContinuation`, `AndThenContinuation` and `OrElseContinuation` have the same members.
pub record Chain (S I T E : Type 0) : Type 0 where
  pub future : Future S T E
  pub invoker : I

abbrev pub chain : {S I T E : Type 0} → Future S T E → I → Chain S I T E
chain f i = record { future = f; invoker = i }

module _ {C S I T E U V : Type 0} (run : Continuation C S T E) where
  -- The invoker's call on what the future holds, at the end of each of the three.
  invoke_then :
      Invoker C I (Result T E) U V → Chain S I T E → C → Outcome (Result U V × Chain S I T E × C)
  invoke_then invoke st ctx = do
    (r, put) ← result_ref st.future
    (r', (i, a), ctx') ← invoke (st.invoker, r) ctx
    returns (r', record st { future = put a; invoker = i }, ctx')

  unfoldable pub then_run : Invoker C I (Result T E) U V → Continuation C (Chain S I T E) U V
  unfolding poll invoke_then
  then_run invoke st ctx = do
    (done, f, ctx') ← poll run st.future ctx
    (if done
        then invoke_then invoke (record st { future = f }) ctx'
        else returns (pending, record st { future = f }, ctx'))

module _ {C S I T E U : Type 0} (run : Continuation C S T E) where
  -- `ValueHandlerInvoker` passes `result.value()` to the handler.
  invoke_value : Invoker C I T U E → Chain S I T E → C → Outcome (Result U E × Chain S I T E × C)
  invoke_value invoke st ctx = do
    (r, put) ← result_ref st.future
    x ← value r
    (r', (i, a), ctx') ← invoke (st.invoker, x) ctx
    returns (r', record st { future = put (ok a); invoker = i }, ctx')

  pass_error : Chain S I T E → C → Outcome (Result U E × Chain S I T E × C)
  pass_error st ctx = do
    (e, f) ← take_error st.future
    returns (err e, record st { future = f }, ctx)

  unfoldable pub and_then_run : Invoker C I T U E → Continuation C (Chain S I T E) U E
  unfolding poll invoke_value pass_error
  and_then_run invoke st ctx = do
    (done, f, ctx') ← poll run st.future ctx
    let st' = record st { future = f }
    (if not done
        then returns (pending, st', ctx')
        else if is_error f
        then pass_error st' ctx'
        else invoke_value invoke st' ctx')

  -- `ErrorHandlerInvoker` passes `result.error()` to the handler.
  invoke_error : Invoker C I E T U → Chain S I T E → C → Outcome (Result T U × Chain S I T E × C)
  invoke_error invoke st ctx = do
    (r, put) ← result_ref st.future
    e ← error r
    (r', (i, a), ctx') ← invoke (st.invoker, e) ctx
    returns (r', record st { future = put (err a); invoker = i }, ctx')

  pass_value : Chain S I T E → C → Outcome (Result T U × Chain S I T E × C)
  pass_value st ctx = do
    (x, f) ← take_value st.future
    returns (ok x, record st { future = f }, ctx)

  unfoldable pub or_else_run : Invoker C I E T U → Continuation C (Chain S I T E) T U
  unfolding poll invoke_error pass_value
  or_else_run invoke st ctx = do
    (done, f, ctx') ← poll run st.future ctx
    let st' = record st { future = f }
    (if not done
        then returns (pending, st', ctx')
        else if is_ok f
        then pass_value st' ctx'
        else invoke_error invoke st' ctx')
