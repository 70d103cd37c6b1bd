-- ===== src/Futures/Promise/Make.antt =====
-- bipolar/futures/promise.hpp: the other operations of `PromiseImpl`, and the functions that make
-- promises, with `ResultContinuation` of bipolar/futures/internal/adaptor.hpp. A promise is an
-- optional continuation; an operation that takes it gives back the empty one that is left.
pub mod Laws
use bipolar.Common.{Bool, true, false, not, Option, none, some}
use bipolar.Common.Outcome.{Outcome, returns, aborts, ◌>>=◌}
use bipolar.Core.Result.{Result, pending, ok, err}
use bipolar.Futures.Promise.{Continuation}
use bipolar.Futures.Promise.Future.{Future, of_promise}
use bipolar.Futures.Promise.Adaptor.{Chain, chain}

module _ {S : Type 0} where
  -- `with_continuation`, and the constructor and the assignment of a continuation.
  unfoldable pub with_continuation : S → Option S
  with_continuation c = some c

  -- The constructors without one, and the assignment of `nullptr`.
  unfoldable pub assign_nullptr : Option S → Option S
  assign_nullptr this = none

  -- `operator bool`, and the comparisons with `nullptr`.
  unfoldable pub to_bool : Option S → Bool
  to_bool none = false
  to_bool (some s) = true

  unfoldable pub eq_nullptr : Option S → Bool
  unfolding to_bool
  eq_nullptr p = not (to_bool p)

  unfoldable pub ne_nullptr : Option S → Bool
  unfolding to_bool
  ne_nullptr p = not (not (to_bool p))

  unfoldable pub swap : Option S → Option S → Option S × Option S
  swap this rhs = (rhs, this)

  -- The constructor from a promise with a continuation of another type, which `convert` makes a
  -- continuation of this one, and `box`.
  unfoldable pub of_other : {S' : Type 0} → (S → S') → Option S → Option S'
  of_other convert none = none
  of_other convert (some s) = some (convert s)

  unfoldable pub box : {S' : Type 0} → (S → S') → Option S → Option S' × Option S
  unfolding of_other
  box convert this = (of_other convert this, none)

  -- The methods assert that there is a continuation, and move the promise into the new continuation.
  abbrev pub attach : {K : Type 0} → (Option S → K) → Option S → Outcome (Option K × Option S)
  attach make none = aborts
  attach make (some s) = returns (some (make (some s)), none)

  -- `then`, `and_then` and `or_else`: the new continuation holds the promise in a future.
  unfoldable pub then_chain :
      {I T E : Type 0} → I → Option S → Outcome (Option (Chain S I T E) × Option S)
  unfolding of_promise
  then_chain handler this = attach (λ p. chain (of_promise p) handler) this

  -- `inspect` and `discard_result`.
  unfoldable pub discard_result : Option S → Outcome (Option (Option S) × Option S)
  discard_result this = attach (λ p. p) this

  -- `wrap_with`: what the wrapper makes of the promise.
  unfoldable pub wrap_with :
      {A : Type 0} → (Option S → Outcome A) → Option S → Outcome (A × Option S)
  wrap_with wrap none = aborts
  wrap_with wrap (some s) = wrap (some s) >>= λ a. returns (a, none)

module _ {C T E : Type 0} where
  -- `ResultContinuation`: its state is the result, which moves out.
  unfoldable pub result_run : Continuation C (Result T E) T E
  result_run result ctx = returns (result, pending, ctx)

module _ {T E : Type 0} where
  unfoldable pub make_result_promise : Result T E → Option (Result T E)
  make_result_promise result = some result

  unfoldable pub make_ok_promise : T → Option (Result T E)
  unfolding make_result_promise
  make_ok_promise value = make_result_promise (ok value)

  unfoldable pub make_error_promise : E → Option (Result T E)
  unfolding make_result_promise
  make_error_promise error = make_result_promise (err error)
