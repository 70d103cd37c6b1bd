-- ===== src/Futures/Promise/JoinTuple.antt =====
-- bipolar/futures/internal/adaptor.hpp: `JoinContinuation`, the continuation behind `join_promises`, for
-- any number of promises of any types.
pub mod Laws
use bipolar.Common.{Bool, true, false, ◌&&◌, if◌then◌else◌, List, [], ◌∷◌, Option}
use bipolar.Common.Outcome.{Outcome, returns, ◌>>=◌}
use bipolar.Core.Result.{Result, pending, ok}
use bipolar.Futures.Promise.{Continuation}
use bipolar.Futures.Promise.Future.{Future, of_promise, poll, take_result}

-- The type of one of the promises: that of its continuation, its state, and its results.
pub record PromiseType (C : Type 0) : Type 1 where
  pub State : Type 0
  pub Value : Type 0
  pub Error : Type 0
  pub run : Continuation C State Value Error

module _ {C : Type 0} where
  -- The tuples of promises, of futures, and of results.
  abbrev pub Promises : List (PromiseType C) → Type 0
  Promises [] = Unit
  Promises (t ∷ ts) = Option t.State × Promises ts

  abbrev pub Futures : List (PromiseType C) → Type 0
  Futures [] = Unit
  Futures (t ∷ ts) = Future t.State t.Value t.Error × Futures ts

  abbrev pub Results : List (PromiseType C) → Type 0
  Results [] = Unit
  Results (t ∷ ts) = Result t.Value t.Error × Results ts

  -- The constructor.
  unfoldable pub join_promises : (ts : List (PromiseType C)) → Promises ts → Futures ts
  unfolding of_promise
  join_promises [] promises = tt
  join_promises (t ∷ ts) (p, promises) = (of_promise p, join_promises ts promises)

  -- `comps`, and whether all of them are true. The elements of the list are computed from the left.
  unfoldable pub comps :
      (ts : List (PromiseType C)) → Futures ts → C → Outcome (Bool × Futures ts × C)
  unfolding poll
  comps [] futures ctx = returns (true, tt, ctx)
  comps (t ∷ ts) (f, futures) ctx = do
    (comp, f', ctx1) ← poll t.run f ctx
    (all, futures', ctx2) ← comps ts futures ctx1
    returns (comp && all, (f', futures'), ctx2)

  -- The tuple of the results that are taken.
  unfoldable pub take_results :
      (ts : List (PromiseType C)) → Futures ts → Outcome (Results ts × Futures ts)
  unfolding take_result
  take_results [] futures = returns (tt, tt)
  take_results (t ∷ ts) (f, futures) = do
    (r, f') ← take_result f
    (rs, futures') ← take_results ts futures
    returns ((r, rs), (f', futures'))

  abbrev pub with_comps :
      (ts : List (PromiseType C))
      → Bool × Futures ts × C
      → Outcome (Result (Results ts) (Unit {0}) × Futures ts × C)
  with_comps ts (true, futures, ctx) = do
    (results, futures') ← take_results ts futures
    returns (ok results, futures', ctx)
  with_comps ts (false, futures, ctx) = returns (pending, futures, ctx)

  -- `operator()`.
  unfoldable pub join_run :
      (ts : List (PromiseType C)) → Continuation C (Futures ts) (Results ts) (Unit {0})
  unfolding comps take_results
  join_run ts futures ctx = comps ts futures ctx >>= λ pass. with_comps ts pass
