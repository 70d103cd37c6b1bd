-- ===== src/Futures/Examples/Made.antt =====
-- The theorems about promises that are made from results and joined, at concrete inputs.
use bipolar.Common.{
  ℕ, ◌+◌, ◌-◌, ◌≡◌, ◌↔◌, refl, Bool, true, ◌==◌, if◌then◌else◌, List, [], ◌∷◌, some,
}
use bipolar.Common.Outcome.{returns}
use bipolar.Core.Result.{Result, pending, ok, err, is_pending, is_ok as core_is_ok}
use bipolar.Futures.Promise.Future.{
  Future, waiting, ready, is_pending as future_is_pending, is_ok, state, result_ref, error,
}
use bipolar.Futures.Promise.Adaptor.{Invoker, chain, and_then_run, or_else_run}
use bipolar.Futures.Promise.Make.{result_run}
use bipolar.Futures.Promise.Make.Laws.{result_combinators_iff}
use bipolar.Futures.Promise.Runs.{Runs}
use bipolar.Futures.Promise.Runs.Combinators.{AfterValue, AfterError}
use bipolar.Futures.Promise.JoinTuple.{PromiseType, Futures}

abbrev increase : Invoker ℕ (Unit {0}) ℕ ℕ Bool
increase (i, x) c = returns (ok (x + 1), (i, x), c + 1)

abbrev recover : Invoker ℕ (Unit {0}) Bool ℕ Bool
recover (i, e) c = returns (ok 0, (i, e), c + 1)

result_combinators_iff_example :
    (Runs (and_then_run result_run increase) (ok 8) 1 (chain (waiting (some (ok 7))) tt) 0
      ↔ AfterValue result_run increase (ok 7) (ok 8) 1 tt 0)
    × (Runs (or_else_run result_run recover) (ok 7) 1 (chain (waiting (some (ok 7))) tt) 0
        ↔ AfterError result_run recover (ok 7) (ok 7) 1 tt 0)
unfolding is_pending
result_combinators_iff_example =
    result_combinators_iff increase recover (ok 7) (ok 8) (ok 7) 1 tt tt 0 refl

-- Returns the context when it is called for the last time.
abbrev counted : PromiseType ℕ
counted = record {
  State = ℕ;
  Value = ℕ;
  Error = Unit {0};
  run = λ s c. returns (if s == 0 then ok c else pending, s - 1, c + 1);
}

abbrev failing : PromiseType ℕ
failing = record {
  State = Unit {0};
  Value = Unit {0};
  Error = Bool;
  run = λ s c. returns (err true, s, c + 1);
}

abbrev both : List (PromiseType ℕ)
both = counted ∷ failing ∷ []

-- The last call for the first promise, and the second one has ended.
abbrev before : Futures both
before = (waiting (some 0), (ready (err true), tt))

abbrev after : Futures both
after = (ready (ok 5), (ready (err true), tt))

abbrev polled : Future ℕ ℕ (Unit {0})
polled = waiting (some 0)

abbrev ended : Future ℕ ℕ (Unit {0})
ended = ready (ok 5)

-- A handler that resets the result of the future which it gets leaves it unsound.
reset_through_reference :
    (put : Result ℕ (Unit {0}) → Future ℕ ℕ (Unit {0})) × (result_ref ended ≡ returns (ok 5, put))
    × (state (put pending) ≡ error)
unfolding result_ref state core_is_ok
reset_through_reference = (ready, refl, refl)
