-- ===== src/Futures/PendingTask.antt =====
-- bipolar/futures/pending_task.hpp and bipolar/executors/inline_executor.hpp: a task is a promise, with
-- the continuation `run`, and the inline executor calls it once.
pub mod Finished
use bipolar.Common.{Bool, true, false, not, Option, none, some}
use bipolar.Common.Outcome.{Outcome, returns, throws, assert, ◌>>=◌, ◌>>◌}
use bipolar.Core.Result.{same, is_pending}
use bipolar.Futures.Promise.{Continuation, call}

module _ {S : Type 0} where
  unfoldable pub has_promise : Option S → Bool
  has_promise none = false
  has_promise (some s) = true

  -- The task of a promise; its continuation is that of `discard_result`.
  unfoldable pub of_promise : Option S → Option (Option S)
  of_promise none = none
  of_promise (some s) = some (some s)

  -- The promise, and the task as the move leaves it.
  unfoldable pub take_promise : Option S → Option S × Option S
  take_promise task = (task, none)

module _ {C S : Type 0} (run : Continuation C S (Unit {0}) (Unit {0})) where
  unfoldable pub call_task : Option S → C → Outcome (Bool × Option S × C)
  unfolding call is_pending
  call_task task ctx = do
    (result, task', ctx') ← call run task ctx
    returns (not (is_pending result), task', ctx')

  -- `InlineExecutor::schedule_task`; what is left of the task is destroyed.
  unfoldable pub run_inline : Option S → C → Outcome C
  unfolding call_task has_promise
  run_inline task ctx = do
    (finished, task', ctx') ← call_task task ctx
    assert (same finished (not (has_promise task')))
    returns ctx'
