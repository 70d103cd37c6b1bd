-- ===== src/Futures/PendingTask/Finished.antt =====
-- When a task is finished (bipolar/futures/pending_task.hpp).
use bipolar.Common.{◌≡◌, not, if◌then◌else◌, none, some, arith}
use bipolar.Common.Outcome.{returns, ◌>>=◌}
use bipolar.Core.Result.{is_pending, to_bool}
use bipolar.Futures.Promise.{Continuation, call}
use bipolar.Futures.Promise.Observe.{discard_run}
use bipolar.Futures.PendingTask.{has_promise, of_promise, call_task, run_inline}

module _ {C S T E : Type 0} (run : Continuation C S T E) where
  -- A task of a promise calls the promise's continuation once. It is finished exactly when the result
  -- is not pending, with a value or an error, and then, and only then, it is empty. So the assertion of
  -- the inline executor does not fail: it gives the context that the call leaves, and throws or aborts
  -- only where the call does.
  pub call_task_lem :
      (s : S) (ctx : C)
      → (call_task (discard_run run) (of_promise (some s)) ctx ≡ (
          run s ctx >>= λ (result, s', ctx').
          returns
            (not (is_pending result), if is_pending result then some (some s') else none, ctx')))
        × (run_inline (discard_run run) (of_promise (some s)) ctx
            ≡ (run s ctx >>= λ (result, s', ctx'). returns ctx'))
  unfolding call_task run_inline discard_run of_promise call is_pending to_bool has_promise
  call_task_lem s ctx = (ground arith, ground arith)
