-- ===== src/Futures/Executor.antt =====
-- bipolar/futures/single_threaded_executor.cpp: the dispatcher of `SingleThreadedExecutor`. One function
-- for each part that holds the mutex; a failed assertion is `none`. What a method does after it
-- has released the mutex is an `After`: nothing, `wake_.notify_one()` or `delete this`.
pub mod System
pub mod Balance
pub mod Inv
pub mod Preserves
pub mod Resolution
pub mod Handles
pub mod Safety
use bipolar.Common.{
  ℕ, Bool, true, false, not, ◌==◌, ◌&&◌, ◌||◌, if◌then◌else◌, List, [], ◌∷◌, Option, none, some,
  check, ◌>>=◌, ◌>>◌,
}
use bipolar.Core.Result.{same}
use bipolar.Futures.Scheduler.{
  Scheduler, is_empty, is_some, new, obtain_ticket, finalize_ticket, release_ticket,
  resume_task_with_ticket, take_runnable_tasks, take_all_tasks, has_runnable_tasks,
  has_suspended_tasks, has_outstanding_tickets,
}
use bipolar.Futures.Scheduler as sched

pub data After : Type 0 where
  nothing notify destroy : After

-- The members of `DispatcherImpl` but the mutex and the condition variable.
pub record Dispatcher (Task : Type 0) : Type 0 where
  pub current_task_ticket : ℕ
  pub was_shutdown : Bool
  pub need_wake : Bool
  pub scheduler : Scheduler Task

-- What a round of `wait_for_runnable_tasks` ends with: tasks, the return with none, or the wait.
pub data Round (Task : Type 0) : Type 0 where
  take : List Task → Round Task
  leave : Round Task
  wait : Round Task

module _ {Task : Type 0} where
  unfoldable pub new_dispatcher : Dispatcher Task
  unfolding new
  new_dispatcher = record {
    current_task_ticket = 0;
    was_shutdown = false;
    need_wake = false;
    scheduler = new;
  }

  -- The assertions of the destructor.
  unfoldable pub may_destroy : Dispatcher Task → Bool
  unfolding has_runnable_tasks has_suspended_tasks has_outstanding_tickets
  may_destroy d =
      d.was_shutdown
      && not (has_runnable_tasks d.scheduler)
      && not (has_suspended_tasks d.scheduler)
      && not (has_outstanding_tickets d.scheduler)

  -- The executor's queue of tasks and `After`; the tasks taken are destroyed.
  unfoldable pub shutdown : Dispatcher Task → Option (After × List (Option Task) × Dispatcher Task)
  shutdown d = do
    check (not d.was_shutdown)
    (tasks, s) ← take_all_tasks [] d.scheduler
    some (
      if has_outstanding_tickets s then nothing else destroy,
      tasks,
      record d { was_shutdown = true; scheduler = s },
    )

  unfoldable pub schedule_task : Option Task → Dispatcher Task → Option (After × Dispatcher Task)
  schedule_task task d = do
    check (not d.was_shutdown)
    s ← sched.schedule_task task d.scheduler
    some (if d.need_wake then notify else nothing, record d { need_wake = false; scheduler = s })

  -- The ticket for the new `SuspendedTask`.
  unfoldable pub suspend_current_task : Dispatcher Task → Option (ℕ × Dispatcher Task)
  suspend_current_task d = do
    check (not d.was_shutdown)
    (if d.current_task_ticket == 0
        then obtain_ticket 2 d.scheduler
          >>= (λ r. some (r.0, record d { current_task_ticket = r.0; scheduler = r.1 }))
        else sched.duplicate_ticket d.current_task_ticket d.scheduler
          >>= (λ s. some (d.current_task_ticket, record d { scheduler = s })))

  unfoldable pub duplicate_ticket : ℕ → Dispatcher Task → Option (Dispatcher Task)
  duplicate_ticket ticket d = do
    s ← sched.duplicate_ticket ticket d.scheduler
    some (record d { scheduler = s })

  -- The branch on `resume_task`; the first component is `abandoned_task`.
  unfoldable pub use_ticket : ℕ → Bool → Scheduler Task → Option (Option Task × Scheduler Task)
  use_ticket ticket true s = resume_task_with_ticket ticket s >>= λ r. some (none, r.1)
  use_ticket ticket false s = release_ticket ticket s

  -- The rest of `resolve_ticket`.
  unfoldable pub after_resolve : Dispatcher Task → Option (After × Dispatcher Task)
  unfolding has_runnable_tasks has_suspended_tasks has_outstanding_tickets
  after_resolve d =
      if d.was_shutdown
      then check (not d.need_wake)
        >> some (if has_outstanding_tickets d.scheduler then nothing else destroy, d)
      else if d.need_wake
          && (has_runnable_tasks d.scheduler || not (has_suspended_tasks d.scheduler))
      then some (notify, record d { need_wake = false })
      else some (nothing, d)

  unfoldable pub resolve_ticket :
      ℕ → Bool → Dispatcher Task → Option (Option Task × After × Dispatcher Task)
  unfolding use_ticket after_resolve
  resolve_ticket ticket resume d = do
    (abandoned, s) ← use_ticket ticket resume d.scheduler
    (after, d') ← after_resolve (record d { scheduler = s })
    some (abandoned, after, d')

  -- One round of the loop of `wait_for_runnable_tasks`, up to its return or its wait.
  unfoldable pub wait_round : Dispatcher Task → Option (Round Task × Dispatcher Task)
  unfolding has_suspended_tasks
  wait_round d = do
    check (not d.was_shutdown)
    (tasks, s) ← take_runnable_tasks [] d.scheduler
    let d' = record d { scheduler = s }
    some (
        if not (is_empty tasks)
        then (take tasks, d')
        else if not (has_suspended_tasks s)
        then (leave, d')
        else (wait, record d' { need_wake = true }))

  -- The round after a wait.
  unfoldable pub woken_round : Dispatcher Task → Option (Round Task × Dispatcher Task)
  unfolding wait_round
  woken_round d = wait_round (record d { need_wake = false })

  -- `run_task` before and after the call of the task. `task` is what the call left of it; the result
  -- begins with what is left in the executor's queue. `finished` is what the call returned.
  unfoldable pub begin_task : Dispatcher Task → Option (Unit {0})
  begin_task d = check (d.current_task_ticket == 0)

  unfoldable pub end_task :
      Bool → Option Task → Dispatcher Task → Option (Option Task × Dispatcher Task)
  end_task finished task d =
      check (same (not (is_some task)) finished)
      >> (if d.current_task_ticket == 0
          then some (task, d)
          else check (not d.was_shutdown)
            >> (finalize_ticket d.current_task_ticket task d.scheduler >>= λ r.
                some (r.0, record d { current_task_ticket = 0; scheduler = r.1 })))
