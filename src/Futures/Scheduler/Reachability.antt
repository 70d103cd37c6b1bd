-- ===== src/Futures/Scheduler/Reachability.antt =====
-- The histories of a scheduler (bipolar/futures/scheduler.hpp): a step for each call that passes its
-- assertions. The premises bound the counters of fixed width.
use bipolar.Common.{ℕ, ◌+◌, ◌^◌, ◌<◌, ◌≡◌, Bool, List, [], Option, some, ensured}
use bipolar.Common.OrderedMap.{find}
use bipolar.Futures.Scheduler.{
  TicketRecord, Scheduler, new, schedule_task, obtain_ticket, finalize_ticket, duplicate_ticket,
  release_ticket, resume_task_with_ticket, take_runnable_tasks, take_all_tasks,
}
use bipolar.Futures.Scheduler.Invariant.{Inv, new-Inv}
use bipolar.Futures.Scheduler.Preservation.{
  schedule_task-Ensures, obtain_ticket-Ensures, finalize_ticket-Ensures, duplicate_ticket-Ensures,
  release_ticket-Ensures, resume_task_with_ticket-Ensures, take_runnable_tasks-Ensures,
}
use bipolar.Futures.Scheduler.Shutdown.{take_all_tasks-Ensures}

pub data Step {Task : Type 0} (s s' : Scheduler Task) : Type 0 where
  schedule : (task : Option Task) → schedule_task task s ≡ some s' → Step s s'
  obtain :
      (refs t : ℕ)
      → refs < 2 ^ 32
      → s.next_ticket + 1 < 2 ^ 64
      → obtain_ticket refs s ≡ some (t, s')
      → Step s s'
  finalize :
      (t : ℕ) (task left : Option Task) → finalize_ticket t task s ≡ some (left, s') → Step s s'
  duplicate :
      (t : ℕ)
      → ((r : TicketRecord Task) → find t s.tickets ≡ some r → r.ref_count + 1 < 2 ^ 32)
      → duplicate_ticket t s ≡ some s'
      → Step s s'
  release : (t : ℕ) (left : Option Task) → release_ticket t s ≡ some (left, s') → Step s s'
  resume :
      (t : ℕ) (did_resume : Bool) → resume_task_with_ticket t s ≡ some (did_resume, s') → Step s s'
  take_runnable : (tasks : List Task) → take_runnable_tasks [] s ≡ some (tasks, s') → Step s s'
  take_all : (tasks : List (Option Task)) → take_all_tasks [] s ≡ some (tasks, s') → Step s s'

pub data Reach {Task : Type 0} (s : Scheduler Task) : Scheduler Task → Type 0 where
  here : Reach s s
  next : {t u : Scheduler Task} → Reach s t → Step t u → Reach s u

module _ {Task : Type 0} where
  pub Step-Inv : (s s' : Scheduler Task) → Inv s → Step s s' → Inv s'
  Step-Inv s s' v (schedule task e) = ensured Inv (schedule_task-Ensures task s v) e
  Step-Inv s s' v (obtain refs t b n e) =
      ensured (λ p. Inv p.1) (obtain_ticket-Ensures refs s v b n) e
  Step-Inv s s' v (finalize t task left e) =
      ensured (λ p. Inv p.1) (finalize_ticket-Ensures t task s v) e
  Step-Inv s s' v (duplicate t room e) = ensured Inv (duplicate_ticket-Ensures t s v room) e
  Step-Inv s s' v (release t left e) = ensured (λ p. Inv p.1) (release_ticket-Ensures t s v) e
  Step-Inv s s' v (resume t did e) =
      ensured (λ p. Inv p.1) (resume_task_with_ticket-Ensures t s v) e
  Step-Inv s s' v (take_runnable tasks e) =
      ensured (λ p. Inv p.1) (take_runnable_tasks-Ensures [] s v) e
  Step-Inv s s' v (take_all tasks e) = ensured (λ p. Inv p.1) (take_all_tasks-Ensures s v) e

  pub Reach_keeps-Inv : {s s' : Scheduler Task} → Inv s → Reach s s' → Inv s'
  Reach_keeps-Inv v here = v
  Reach_keeps-Inv v (next {t} {u} r st) = Step-Inv t u (Reach_keeps-Inv v r) st

  -- Every state that a history of calls reaches from a new scheduler satisfies the invariant: the
  -- tickets rise strictly from 1 and stay below `next_ticket`, every ticket in the table has a
  -- positive reference count, a ticket that holds a task was not resumed, and
  -- `suspended_task_count` is the number of tasks that the tickets hold. Each call of the history
  -- passes its assertions, an initial count is below 2^32, a duplicated count stays below 2^32,
  -- and the ticket numbers stay below 2^64.
  pub Reach-Inv : (s : Scheduler Task) → Reach new s → Inv s
  Reach-Inv s r = Reach_keeps-Inv new-Inv r
