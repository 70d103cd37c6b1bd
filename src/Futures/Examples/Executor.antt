-- ===== src/Futures/Examples/Executor.antt =====
-- Executions of the executor (bipolar/futures/single_threaded_executor.cpp) with its threads.
use bipolar.Common.{
  ℕ, ◌+◌, ◌^◌, ◌≢◌, ◌<◌, ◌≡◌, ◌⊎◌, ◌↔◌, refl, inl, true, false, not, ltb, ◌&&◌, length, [], ◌∷◌,
  none, some, arith,
}
use bipolar.Common.Outcome.{returns}
use bipolar.Core.Result.{ok}
use bipolar.Futures.Promise.{Continuation}
use bipolar.Futures.PendingTask.{call_task}
use bipolar.Futures.Scheduler.Tickets.{waiting as waiting_tasks}
use bipolar.Common.OrderedMap.{find, emplace, update, erase}
use bipolar.Futures.Executor.{
  new_dispatcher, schedule_task, wait_round, woken_round, begin_task, suspend_current_task,
  end_task, resolve_ticket, shutdown,
}
use bipolar.Futures.Executor.Safety.{no_lost_wakeup, destroyed_iff, handles_pass, executor_passes}
use bipolar.Futures.Executor.{may_destroy, duplicate_ticket}
use bipolar.Futures.Scheduler as sched
use bipolar.Futures.Scheduler.{is_some}
use bipolar.Futures.Executor.System.{
  Phase, System, new_system, run, again, wake, begin, suspend, end, schedule, resolve, deliver,
  close, Reach, here, next, blocked, gone, outside, executing, draining,
}

abbrev at_first : Phase ℕ
at_first = outside

away_outside : at_first ≢ gone
away_outside e = cc

-- A task is scheduled, taken and called.
called : (s : System ℕ) × Reach s × (s.phase ≡ executing 7 [])
unfolding new_system new_dispatcher schedule_task wait_round begin_task sched.schedule_task
    sched.new sched.take_runnable_tasks
called = (
  _,
  next (next (next here (schedule (some 7) _ _ away_outside refl)) (run _ _ refl refl))
      (begin _ _ refl refl),
  refl,
)

-- It suspends itself and ends unfinished; the executor waits, and the handle is given back.
waiting :
    (s : System ℕ) × Reach s
    × (s.phase ≡ blocked)
    × (s.dispatcher.scheduler.runnable_tasks ≡ 7 ∷ [])
unfolding called wait_round suspend_current_task end_task resolve_ticket sched.obtain_ticket
    sched.finalize_ticket sched.take_runnable_tasks sched.has_suspended_tasks
    sched.resume_task_with_ticket sched.new emplace find update erase
waiting = (
  _,
  next
      (next
        (next (next called.1 (suspend _ _ _ _ called.2 refl (omega arith) (omega arith)))
          (end _ _ false (some 7) _ _ refl refl))
        (again _ _ refl refl))
      (resolve 1 true _ _ _ (omega arith) refl),
  refl,
  refl,
)

-- The notification arrives; the task runs again and finishes, and the executor is destroyed.
finished : (s : System ℕ) × Reach s × (s.phase ≡ gone) × (s.destroyed ≡ true)
unfolding waiting woken_round wait_round begin_task end_task shutdown sched.take_runnable_tasks
    sched.take_all_tasks sched.has_suspended_tasks
finished = (
  _,
  next
      (next
        (next
          (next (next (next waiting.1 (deliver (omega arith))) (wake _ _ waiting.2 refl))
            (begin _ _ refl refl))
          (end _ _ true none _ _ refl refl))
        (again _ _ refl refl))
      (close _ _ _ refl refl),
  refl,
  refl,
)

-- A wait may end without a notification; the thread that still has to send one is then left with a
-- dispatcher that is gone.
notified_late : (s : System ℕ) × Reach s × (s.destroyed ≡ true) × (0 < s.pending)
unfolding waiting woken_round wait_round begin_task end_task shutdown sched.take_runnable_tasks
    sched.take_all_tasks sched.has_suspended_tasks
notified_late = (
  _,
  next
      (next
        (next (next (next waiting.1 (wake _ _ waiting.2 refl)) (begin _ _ refl refl))
          (end _ _ true none _ _ refl refl))
        (again _ _ refl refl))
      (close _ _ _ refl refl),
  refl,
  omega arith,
)

no_lost_wakeup_example : (0 < waiting.0.pending) ⊎ (waiting.0.woken ≡ true)
no_lost_wakeup_example =
    no_lost_wakeup waiting.0 waiting.1 waiting.2 (inl (λ e. absurd (cc (e, waiting.3))))

destroyed_iff_example :
    ((finished.0.destroyed ≡ true)
      ↔ ((finished.0.phase ≡ gone) × ((k : ℕ) → finished.0.handles k ≡ 0)))
    × (finished.0.destroyed ≡ true → may_destroy finished.0.dispatcher ≡ true)
destroyed_iff_example = destroyed_iff finished.0 finished.1

suspended : (s : System ℕ) × Reach s × (0 < s.handles 1)
unfolding called suspend_current_task sched.obtain_ticket emplace sched.new
suspended =
    (_, next called.1 (suspend _ _ _ _ called.2 refl (omega arith) (omega arith)), omega arith)

handles_pass_example :
    (is_some (resolve_ticket 1 true suspended.0.dispatcher) ≡ true)
    × (suspended.0.handles 1 + 2 < 2 ^ 32
        → is_some (duplicate_ticket 1 suspended.0.dispatcher) ≡ true)
handles_pass_example = handles_pass suspended.0 1 true suspended.1 suspended.2

-- Ends with its first call.
abbrev ends : Continuation ℕ ℕ (Unit {0}) (Unit {0})
ends t c = returns (ok tt, t, c + 1)

executor_passes_example :
    (called.0.phase ≡ outside → is_some (wait_round called.0.dispatcher) ≡ true)
    × (called.0.phase ≡ draining [] → is_some (wait_round called.0.dispatcher) ≡ true)
    × (called.0.phase ≡ blocked → is_some (woken_round called.0.dispatcher) ≡ true)
    × (called.0.phase ≡ draining (7 ∷ []) → is_some (begin_task called.0.dispatcher) ≡ true)
    × (called.0.phase ≡ executing 7 []
        → call_task ends (some 7) 0 ≡ returns (true, none, 1)
        → is_some (end_task true none called.0.dispatcher) ≡ true)
    × (called.0.phase ≡ executing 7 []
        → called.0.dispatcher.scheduler.next_ticket + 1 < 2 ^ 64
        → called.0.handles called.0.dispatcher.current_task_ticket + 2 < 2 ^ 32
        → is_some (suspend_current_task called.0.dispatcher) ≡ true)
    × (called.0.phase ≢ gone → is_some (schedule_task (some 7) called.0.dispatcher) ≡ true)
    × (called.0.phase ≡ outside
        → let tickets = called.0.dispatcher.scheduler.tickets in
          is_some (shutdown called.0.dispatcher)
          ≡ not (ltb 0 (waiting_tasks tickets) && ltb (waiting_tasks tickets) (length tickets)))
executor_passes_example = executor_passes ends called.0 7 [] none true 0 1 called.1
