-- ===== src/Futures/Executor/Handles.antt =====
-- Each other step of the other threads against the invariant: a task is scheduled, a handle copied, a
-- notification delivered, the executor destroyed (bipolar/futures/single_threaded_executor.cpp).
use bipolar.Common.{
  ℕ, ◌+◌, ◌-◌, ◌^◌, ◌<◌, ◌≡◌, ◌≢◌, refl, sym, ◌∙◌, inr, Bool, true, List, [], Option, none, some,
  arith, ◌||◌,
}
use bipolar.Futures.Scheduler.{
  TicketRecord, Scheduler, is_empty, has_runnable_tasks, has_suspended_tasks,
  has_outstanding_tickets, release_ticket, take_all_tasks, resume_task_with_ticket,
}
use bipolar.Futures.Scheduler.Lookup.{refs}
use bipolar.Futures.Scheduler as sched
use bipolar.Futures.Executor.{After, Dispatcher, schedule_task, duplicate_ticket, shutdown}
use bipolar.Futures.Executor.System.{
  Phase, outside, blocked, gone, draining, executing, System, signals, destroys, notified,
}
use bipolar.Common.{put}
use bipolar.Futures.Executor.Balance.{
  requeued, duplicate_ticket-IsBalanced, take_all_tasks-IsBalanced,
}
use bipolar.Futures.Executor.Inv.{Holds, IsConsistent}
use bipolar.Futures.Executor.Preserves.{Gives, at, rebase}
use bipolar.Futures.Executor.Resolution.{listed}

module _ {Task : Type 0} where
  schedule-Holds :
      (p : Phase Task) (d d' : Dispatcher Task) (n : ℕ) (w x : Bool) (task : Option Task)
      (a : After)
      → p ≢ gone
      → Holds p d n w x
      → schedule_task task d ≡ some (a, d')
      → Holds p d' (n + signals a) w x
  unfolding schedule_task sched.schedule_task
  schedule-Holds outside d d' n w x task a away h e = ground arith
  schedule-Holds blocked d d' n w x task a away h e = ground arith
  schedule-Holds gone d d' n w x task a away h e = absurd (away refl)
  schedule-Holds (draining ts) d d' n w x task a away h e = ground arith
  schedule-Holds (executing t ts) d d' n w x task a away h e = ground arith

  -- The fields that a copy leaves alone are all that `Holds` reads of the table, but for its emptiness.
  copy-Holds :
      (p : Phase Task) (d : Dispatcher Task) (q' : Scheduler Task) (n : ℕ) (w x : Bool)
      → Holds p d n w x
      → is_empty q'.tickets ≡ is_empty d.scheduler.tickets
      → (q'.runnable_tasks ≡ d.scheduler.runnable_tasks)
        × (q'.suspended_task_count ≡ d.scheduler.suspended_task_count)
      → Holds p (record d { scheduler = q' }) n w x
  copy-Holds outside d q' n w x h e same = h
  copy-Holds (draining ts) d q' n w x h e same = h
  copy-Holds (executing t ts) d q' n w x h e same = h
  copy-Holds blocked d q' n w x h e same = ground arith
  copy-Holds gone d q' n w x h e same = ground arith

  pub copy-Gives :
      (s : System Task) (k : ℕ)
      → IsConsistent s
      → 0 < s.handles k
      → s.handles k + 2 < 2 ^ 32
      → Gives
          (λ d.
            IsConsistent (record s { dispatcher = d; handles = put s.handles k (s.handles k + 1) }))
          (duplicate_ticket k s.dispatcher)
  unfolding duplicate_ticket
  copy-Gives s k v p room =
      let d = s.dispatcher in
      let c = d.current_task_ticket in
      let q = d.scheduler in
      let live : 0 < refs k q = omega (arith, v.balance.counted k) in
      let (q', done, same, v') = duplicate_ticket-IsBalanced c k q s.handles v.balance live room in
      let live' : 0 < refs k q' = ground (arith, v'.counted k) in
      record {
        result = record d { scheduler = q' };
        gives = rw done refl;
        holds = record {
          balance = v';
          holds =
              copy-Holds s.phase d q' s.pending s.woken s.destroyed v.holds
                (listed k q'.tickets live' ∙ sym (listed k q.tickets live)) same;
        };
      }

  deliver-Holds :
      (p : Phase Task) (d : Dispatcher Task) (n : ℕ) (w x : Bool)
      → Holds p d n w x
      → Holds p d (n - 1) (notified p w) x
  deliver-Holds outside d n w x h = h
  deliver-Holds (draining ts) d n w x h = h
  deliver-Holds (executing t ts) d n w x h = h
  deliver-Holds blocked d n w x h = (h.0, h.1, h.2, inr (inr refl))
  deliver-Holds gone d n w x h = h

  pub deliver-IsConsistent :
      (s : System Task)
      → IsConsistent s
      → IsConsistent (record s { pending = s.pending - 1; woken = notified s.phase s.woken })
  deliver-IsConsistent s v = record {
    balance = v.balance;
    holds = deliver-Holds s.phase s.dispatcher s.pending s.woken s.destroyed v.holds;
  }

  schedule_table :
      (d d' : Dispatcher Task) (task : Option Task) (a : After)
      → schedule_task task d ≡ some (a, d')
      → (let q = d.scheduler in
          d'.scheduler ≡ record q { runnable_tasks = d'.scheduler.runnable_tasks })
        × (d'.current_task_ticket ≡ d.current_task_ticket)
  unfolding schedule_task sched.schedule_task
  schedule_table d d' none a e = ground arith
  schedule_table d d' (some t) a e = ground arith

  pub schedule-IsConsistent :
      (s : System Task) (task : Option Task) (a : After) (d : Dispatcher Task)
      → IsConsistent s
      → s.phase ≢ gone
      → schedule_task task s.dispatcher ≡ some (a, d)
      → IsConsistent (record s { dispatcher = d; pending = s.pending + signals a })
  schedule-IsConsistent s task a d v away e =
      let q = s.dispatcher.scheduler in
      let c = s.dispatcher.current_task_ticket in
      let ts = d.scheduler.runnable_tasks in
      let (table, current) = schedule_table s.dispatcher d task a e in
      record {
        balance =
            rebase c d.current_task_ticket (record q { runnable_tasks = ts }) d.scheduler s.handles
              current table (requeued c q s.handles ts v.balance);
        holds =
            schedule-Holds s.phase s.dispatcher d s.pending s.woken s.destroyed task a away v.holds
              e;
      }

  close_books :
      (d d' : Dispatcher Task) (a : After) (tasks : List (Option Task))
      → shutdown d ≡ some (a, tasks, d')
      → (take_all_tasks [] d.scheduler ≡ some (tasks, d'.scheduler))
        × (d'.was_shutdown ≡ true)
        × (d'.need_wake ≡ d.need_wake)
        × (d'.current_task_ticket ≡ d.current_task_ticket)
        × (destroys a ≡ is_empty d'.scheduler.tickets)
  unfolding shutdown has_outstanding_tickets
  close_books d d' a tasks e = ground arith

  pub close-IsConsistent :
      (s : System Task) (tasks : List (Option Task)) (a : After) (d : Dispatcher Task)
      → IsConsistent s
      → s.phase ≡ outside
      → shutdown s.dispatcher ≡ some (a, tasks, d)
      → IsConsistent
          (record s { dispatcher = d; phase = gone; destroyed = s.destroyed || destroys a })
  close-IsConsistent s tasks a d v ph e =
      let q = s.dispatcher.scheduler in
      let c = s.dispatcher.current_task_ticket in
      let h = at s v ph in
      let (taken, off, calm, current, last) = close_books s.dispatcher d a tasks e in
      let (b, empty, idle) =
        take_all_tasks-IsBalanced q d.scheduler s.handles tasks
          (rebase c 0 q q s.handles (sym h.0) refl v.balance) taken in
      record {
        balance =
            rebase 0 d.current_task_ticket d.scheduler d.scheduler s.handles (current ∙ h.0) refl b;
        holds = (current ∙ h.0, off, calm ∙ h.2, empty, idle, ground arith);
      }
