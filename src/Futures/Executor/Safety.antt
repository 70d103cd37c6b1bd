-- ===== src/Futures/Executor/Safety.antt =====
-- What holds of every execution of the executor and its threads
-- (bipolar/futures/single_threaded_executor.cpp).
use bipolar.Common.{
  ℕ, ◌+◌, ◌^◌, ◌<◌, ◌≡◌, ◌≢◌, ◌⊎◌, ◌↔◌, refl, sym, ◌∙◌, ap, inl, inr, Bool, true, false, not, ltb,
  ◌&&◌, if◌then◌else◌, subst, length, List, [], ◌∷◌, Option, none, some, arith, All,
}
use bipolar.Common.Outcome.{returns, >>=-eq-returns, same_value}
use bipolar.Common.OrderedMap.{find}
use bipolar.Core.Result.{Result, pending, ok, err, same, is_pending}
use bipolar.Futures.Promise.{Continuation, call}
use bipolar.Futures.PendingTask.{call_task}
use bipolar.Futures.Scheduler.Invariant.{Inv}
use bipolar.Futures.Scheduler.Shutdown.{take_all_tasks_lem}
use bipolar.Futures.Scheduler.{
  Scheduler, TicketRecord, is_empty, is_some, take_runnable_tasks, has_suspended_tasks,
}
use bipolar.Futures.Scheduler.Tickets.{IsLive, waiting}
use bipolar.Futures.Scheduler.Lookup.{count_of}
use bipolar.Futures.Scheduler as sched
use bipolar.Futures.Executor.{
  may_destroy, Dispatcher, wait_round, woken_round, schedule_task, suspend_current_task,
  duplicate_ticket, resolve_ticket, begin_task, end_task, shutdown,
}
use bipolar.Futures.Executor.System.{
  Phase, outside, blocked, gone, draining, executing, System, Step, run, again, wake, begin,
  suspend, end, schedule, copy, resolve, deliver, close, Reach, here, next,
}
use bipolar.Futures.Executor.Balance.{owner}
use bipolar.Futures.Executor.Inv.{Holds, IsConsistent, new_system-IsConsistent}
use bipolar.Futures.Executor.Preserves.{
  given, at, run-IsConsistent, wake-IsConsistent, begin-Gives, suspend-Gives, end-Gives, end_told,
}
use bipolar.Futures.Executor.Resolution.{resolve-Gives}
use bipolar.Futures.Executor.Handles.{
  schedule-IsConsistent, copy-Gives, deliver-IsConsistent, close-IsConsistent,
}

agrees :
    {S : Type 0} (r : Result (Unit {0}) (Unit {0})) (s : S)
    → same (not (is_some (if is_pending r then some s else none))) (not (is_pending r)) ≡ true
unfolding is_pending
agrees pending s = refl
agrees (ok x) s = refl
agrees (err e) s = refl

module _ {Task : Type 0} where
  Step-IsConsistent : (s s' : System Task) → IsConsistent s → Step s s' → IsConsistent s'
  Step-IsConsistent s _ v (run r d ph e) = run-IsConsistent s r d v (inl ph) e
  Step-IsConsistent s _ v (again r d ph e) = run-IsConsistent s r d v (inr ph) e
  Step-IsConsistent s _ v (wake r d ph e) = wake-IsConsistent s r d v ph e
  Step-IsConsistent s _ v (begin t ts ph e) = given (begin-Gives s t ts v ph) e
  Step-IsConsistent s _ v (suspend t ts k d ph e room room') =
      given (suspend-Gives s t ts v ph room room') e
  Step-IsConsistent s _ v (end t ts finished task left d ph e) =
      given (end-Gives s t ts finished task v ph (end_told finished task left s.dispatcher d e)) e
  Step-IsConsistent s _ v (schedule task a d away e) = schedule-IsConsistent s task a d v away e
  Step-IsConsistent s _ v (copy k d p e room) = given (copy-Gives s k v p room) e
  Step-IsConsistent s _ v (resolve k b o a d p e) = given (resolve-Gives s k b v p) e
  Step-IsConsistent s _ v (deliver p) = deliver-IsConsistent s v
  Step-IsConsistent s _ v (close tasks a d ph e) = close-IsConsistent s tasks a d v ph e

  pub Reach-IsConsistent : (s : System Task) → Reach s → IsConsistent s
  Reach-IsConsistent _ here = new_system-IsConsistent
  Reach-IsConsistent _ (next {s} {s'} past step) =
      Step-IsConsistent s s' (Reach-IsConsistent s past) step

  -- However the threads interleaved: while the executor's thread waits and there is a task for it to
  -- run, or no suspended task is left to wait for, a notification has reached it, or some thread is
  -- still to send one.
  pub no_lost_wakeup :
      (s : System Task)
      → Reach s
      → s.phase ≡ blocked
      → (s.dispatcher.scheduler.runnable_tasks ≢ [])
        ⊎ (s.dispatcher.scheduler.suspended_task_count ≡ 0)
      → (0 < s.pending) ⊎ (s.woken ≡ true)
  no_lost_wakeup s past ph work = let h = at s (Reach-IsConsistent s past) ph in ground arith

  unlisted :
      (m : List (ℕ × TicketRecord Task))
      → All (λ e. IsLive e.1) m
      → ((k : ℕ) → count_of (find k m) ≡ 0)
      → is_empty m ≡ true
  unfolding find
  unlisted [] live h = refl
  unlisted ((k, r) ∷ m) live h = absurd (ground (arith, h k, live.0.referenced))

  gone_of :
      (p : Phase Task) (d : Dispatcher Task) (n : ℕ) (w x : Bool)
      → Holds p d n w x
      → x ≡ true
      → (p ≡ gone) × Holds gone d n w x
  gone_of outside d n w x h e = absurd (ground arith)
  gone_of blocked d n w x h e = absurd (ground arith)
  gone_of (draining ts) d n w x h e = absurd (ground arith)
  gone_of (executing t ts) d n w x h e = absurd (ground arith)
  gone_of gone d n w x h e = (refl, h)

  no_handles :
      (m : List (ℕ × TicketRecord Task)) (h : ℕ → ℕ)
      → is_empty m ≡ true
      → ((k : ℕ) → count_of (find k m) ≡ h k + 0)
      → (k : ℕ) → h k ≡ 0
  unfolding find
  no_handles [] h e c k = omega (arith, c k)
  no_handles (x ∷ m) h e c k = absurd (ground arith)

  -- However the threads interleaved: the dispatcher is deleted exactly when the executor is gone and
  -- no handle to a suspended task is left. It is then in the state that its destructor asserts: no
  -- runnable task, no suspended one, and no ticket.
  pub destroyed_iff :
      (s : System Task)
      → Reach s
      → ((s.destroyed ≡ true) ↔ ((s.phase ≡ gone) × ((k : ℕ) → s.handles k ≡ 0)))
        × (s.destroyed ≡ true → may_destroy s.dispatcher ≡ true)
  unfolding may_destroy
  destroyed_iff s past =
      let v = Reach-IsConsistent s past in
      let d = s.dispatcher in
      let q = d.scheduler in
      let c = d.current_task_ticket in
      (
        (
          λ e.
              let (ph, h) = gone_of s.phase d s.pending s.woken s.destroyed v.holds e in
              (
                ph,
                no_handles q.tickets s.handles (sym h.5 ∙ e)
                    (λ k. v.balance.counted k ∙ ap (λ c. s.handles k + owner c k) h.0),
              ),
          λ (ph, zero_handles).
              let h = at s v ph in
              h.5
              ∙ unlisted q.tickets v.balance.sound.live
                  (λ k. ground (arith, v.balance.counted k, zero_handles k)),
        ),
        λ e.
            let (ph, h) = gone_of s.phase d s.pending s.woken s.destroyed v.holds e in ground arith,
      )

  -- However the threads interleaved: whoever holds a handle to a ticket passes every assertion of
  -- the dispatcher, when he gives it back with or without resuming the task, and when he copies it,
  -- if its count does not overflow.
  pub handles_pass :
      (s : System Task) (k : ℕ) (b : Bool)
      → Reach s
      → 0 < s.handles k
      → (is_some (resolve_ticket k b s.dispatcher) ≡ true)
        × (s.handles k + 2 < 2 ^ 32 → is_some (duplicate_ticket k s.dispatcher) ≡ true)
  handles_pass s k b past p =
      let v = Reach-IsConsistent s past in
      (
        ap is_some (resolve-Gives s k b v p).gives,
        λ room. ap is_some (copy-Gives s k v p room).gives,
      )

  rounds : (d : Dispatcher Task) → d.was_shutdown ≡ false → is_some (wait_round d) ≡ true
  unfolding wait_round take_runnable_tasks
  rounds d e = rw e refl

  open_for_tasks :
      (p : Phase Task) (d : Dispatcher Task) (n : ℕ) (w x : Bool) (t : Task)
      → Holds p d n w x
      → p ≢ gone
      → is_some (schedule_task (some t) d) ≡ true
  unfolding schedule_task sched.schedule_task
  open_for_tasks outside d n w x t h away = ground arith
  open_for_tasks blocked d n w x t h away = ground arith
  open_for_tasks gone d n w x t h away = absurd (away refl)
  open_for_tasks (draining ts) d n w x t h away = ground arith
  open_for_tasks (executing u ts) d n w x t h away = ground arith

  -- What a call of a task returns agrees with the task that it leaves.
  told :
      {C : Type 0} (program : Continuation C Task (Unit {0}) (Unit {0})) (t : Task)
      (task : Option Task) (finished : Bool) (ctx ctx' : C)
      → call_task program (some t) ctx ≡ returns (finished, task, ctx')
      → same (not (is_some task)) finished ≡ true
  unfolding call_task call
  told {C = C} program t task finished ctx ctx' e =
      let ((r, p, c), h, last) = >>=-eq-returns (call program (some t) ctx) _ e in
      let ((r0, s0, c0), _, inner) = >>=-eq-returns (program t ctx) _ h in
      subst (λ (x : Bool × Option Task × C). same (not (is_some x.1)) x.0 ≡ true) (same_value last)
        (subst
          (λ (x : Result (Unit {0}) (Unit {0}) × Option Task × C).
            same (not (is_some x.1)) (not (is_pending x.0)) ≡ true)
          (same_value inner) (agrees r0 s0))

  may_shut_down :
      (d : Dispatcher Task)
      → Inv d.scheduler
      → d.was_shutdown ≡ false
      → is_some (shutdown d)
        ≡ not (
            ltb 0 (waiting d.scheduler.tickets)
            && ltb (waiting d.scheduler.tickets) (length d.scheduler.tickets))
  unfolding shutdown
  may_shut_down d v off = ground (arith, take_all_tasks_lem d.scheduler v)

  -- However the threads interleaved: the executor's thread passes every assertion of the dispatcher
  -- but one. It may ask for tasks, first and after a wait, begin a task that it took, and suspend it
  -- as long as no counter overflows; and when the call of the task returns, it passes the assertions
  -- at its end. Any thread may schedule a task before the executor is gone. The destruction of the
  -- executor outside `run` fails an assertion exactly if some ticket holds a suspended task and some
  -- other does not.
  pub executor_passes :
      {C : Type 0} (program : Continuation C Task (Unit {0}) (Unit {0})) (s : System Task)
      (t : Task) (ts : List Task) (task : Option Task) (finished : Bool) (ctx ctx' : C)
      → Reach s
      → (s.phase ≡ outside → is_some (wait_round s.dispatcher) ≡ true)
        × (s.phase ≡ draining [] → is_some (wait_round s.dispatcher) ≡ true)
        × (s.phase ≡ blocked → is_some (woken_round s.dispatcher) ≡ true)
        × (s.phase ≡ draining (t ∷ ts) → is_some (begin_task s.dispatcher) ≡ true)
        × (s.phase ≡ executing t ts
            → call_task program (some t) ctx ≡ returns (finished, task, ctx')
            → is_some (end_task finished task s.dispatcher) ≡ true)
        × (s.phase ≡ executing t ts
            → s.dispatcher.scheduler.next_ticket + 1 < 2 ^ 64
            → s.handles s.dispatcher.current_task_ticket + 2 < 2 ^ 32
            → is_some (suspend_current_task s.dispatcher) ≡ true)
        × (s.phase ≢ gone → is_some (schedule_task (some t) s.dispatcher) ≡ true)
        × (s.phase ≡ outside
            → let tickets = s.dispatcher.scheduler.tickets in
              is_some (shutdown s.dispatcher)
              ≡ not (ltb 0 (waiting tickets) && ltb (waiting tickets) (length tickets)))
  unfolding woken_round
  executor_passes program s t ts task finished ctx ctx' past =
      let v = Reach-IsConsistent s past in
      let d = s.dispatcher in
      (
        λ ph. rounds d (at s v ph).1,
        λ ph. rounds d (at s v ph).1,
        λ ph. rounds (record d { need_wake = false }) (at s v ph).1,
        λ ph. ap is_some (begin-Gives s t ts v ph).gives,
        λ ph e.
            ap is_some
              (end-Gives s t ts finished task v ph (told program t task finished ctx ctx' e)).gives,
        λ ph room room'. ap is_some (suspend-Gives s t ts v ph room room').gives,
        λ away. open_for_tasks s.phase d s.pending s.woken s.destroyed t v.holds away,
        λ ph. may_shut_down d v.balance.sound (at s v ph).1,
      )
