-- ===== src/Futures/Promise/JoinTuple/Laws.antt =====
-- What a call of the promise of `join_promises` returns, and what it keeps.
use bipolar.Common.{Bool, true, ◌&&◌, List, [], ◌∷◌}
use bipolar.Core.Result.{Result}
use bipolar.Futures.Promise.Future.{Future, nothing, ready, is_ready}
use bipolar.Futures.Promise.JoinTuple.{PromiseType, Futures, Results}

module _ {C : Type 0} where
  -- Whether all futures hold a result.
  abbrev pub all_ready : (ts : List (PromiseType C)) → Futures ts → Bool
  all_ready [] futures = true
  all_ready (t ∷ ts) (f, futures) = is_ready f && all_ready ts futures

  -- The futures that hold these results, and those that hold nothing.
  abbrev pub holding : (ts : List (PromiseType C)) → Results ts → Futures ts
  holding [] results = tt
  holding (t ∷ ts) (r, results) = (ready r, holding ts results)

  abbrev pub emptied : (ts : List (PromiseType C)) → Futures ts
  emptied [] = tt
  emptied (t ∷ ts) = (nothing, emptied ts)
