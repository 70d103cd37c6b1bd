-- ===== src/Futures/Examples/Runs.antt =====
-- The theorems about promises that run to their end (bipolar/futures) at concrete inputs.
use bipolar.Common.{ℕ, zero, suc, ◌+◌, ◌≡◌, ◌↔◌, some}
use bipolar.Common.Outcome.{Outcome, returns}
use bipolar.Core.Result.{Result, pending, ok}
use bipolar.Futures.Promise.{Continuation}
use bipolar.Futures.Promise.Future.{waiting}
use bipolar.Futures.Promise.Adaptor.{chain, Invoker, then_run, and_then_run, or_else_run, chained}
use bipolar.Futures.Promise.Runs.{Runs}
use bipolar.Futures.Promise.Runs.Combinators.{
  then_iff, and_then_iff, or_else_iff, AfterValue, AfterError,
}
use bipolar.Futures.Promise.Runs.Handlers.{fresh, chained_iff}

-- Waits as often as its state says, counts the calls in the context, then gives 7.
abbrev countdown : Continuation ℕ ℕ ℕ ℕ
countdown zero c = returns (ok 7, 0, c + 1)
countdown (suc n) c = returns (pending, n, c + 1)

abbrev total : Invoker ℕ ℕ (Result ℕ ℕ) ℕ ℕ
total (i, r) c = returns (ok (i + c), (i, pending), c)

abbrev increase : Invoker ℕ ℕ ℕ ℕ ℕ
increase (i, x) c = returns (ok (i + x), (i, x + 1), c)

abbrev launch : ℕ → ℕ → Outcome ((ℕ × ℕ) × ℕ)
launch a c = returns ((a, a + 1), c + 10)

then_iff_example :
    Runs (then_run countdown total) (ok 12) 2 (chain (waiting (some 1)) 10) 0
    ↔ ((r : Result ℕ ℕ) × (c1 : ℕ) × Runs countdown r c1 1 0 × Runs total (ok 12) 2 (10, r) c1)
then_iff_example = then_iff countdown total (ok 12) 2 1 10 0

and_then_iff_example :
    Runs (and_then_run countdown increase) (ok 17) 2 (chain (waiting (some 1)) 10) 0 ↔ (
      (r : Result ℕ ℕ) × (c1 : ℕ) × Runs countdown r c1 1 0
      × AfterValue countdown increase r (ok 17) 2 10 c1)
and_then_iff_example = and_then_iff countdown increase (ok 17) 2 1 10 0

or_else_iff_example :
    Runs (or_else_run countdown increase) (ok 7) 2 (chain (waiting (some 1)) 10) 0 ↔ (
      (r : Result ℕ ℕ) × (c1 : ℕ) × Runs countdown r c1 1 0
      × AfterError countdown increase r (ok 7) 2 10 c1)
or_else_iff_example = or_else_iff countdown increase (ok 7) 2 1 10 0

chained_iff_example :
    Runs (chained countdown) (ok 7) 12 (fresh countdown launch, 1) 0
    ↔ ((p : (ℕ × ℕ) × ℕ) × (launch 1 0 ≡ returns p) × Runs countdown (ok 7) 12 p.0.0 p.1)
chained_iff_example = chained_iff countdown launch 1 (ok 7) 0 12

abbrev done : Result (Unit {0}) (Unit {0})
done = ok tt
