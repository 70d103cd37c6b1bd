-- ===== src/Futures/Scheduler/Resumption.antt =====
-- What the scheduler (bipolar/futures/scheduler.cpp) does with the ticket of a suspended task: the
-- exact result of each method on a live ticket, and the race between the
-- executor that finalizes a ticket and the thread that resumes it.
use bipolar.Common.{
  ℕ, ◌+◌, ◌-◌, ◌^◌, ◌<◌, ◌≡◌, refl, true, false, ◌==◌, if◌then◌else◌, [], ◌∷◌, ◌++◌, Option, none,
  some, arith, weigh_opt, ◌>>=◌,
}
use bipolar.Common.OrderedMap.{
  find, update, erase, erase-update, emplace_last, find-snoc_self, update-snoc, erase-snoc,
  find-All, find-update, find-erase,
}
use bipolar.Futures.Scheduler.{
  TicketRecord, Scheduler, settle, push, obtain_ticket, finalize_ticket, release_ticket,
  resume_task_with_ticket,
}
use bipolar.Futures.Scheduler.Tickets.{IsLive, waiting_of_find}
use bipolar.Futures.Scheduler.Invariant.{Inv, count-lt}

module _ {Task : Type 0} where
  -- In a state that satisfies the invariant, releasing a ticket of the table never fails. The last reference takes the ticket out and hands
  -- its task back, which leaves the count of suspended tasks; any other reference is only dropped.
  pub release_ticket_lem :
      (t : ℕ) (r : TicketRecord Task) (s : Scheduler Task)
      → Inv s
      → find t s.tickets ≡ some r
      → release_ticket t s ≡ (
          if r.ref_count == 1
          then some (
            r.task,
            record s {
              tickets = erase t s.tickets;
              suspended_task_count = s.suspended_task_count - weigh_opt (λ _. 1) r.task;
            },
          )
          else some (
            none,
            record s { tickets = update t (record r { ref_count = r.ref_count - 1 }) s.tickets },
          ))
  unfolding release_ticket
  release_ticket_lem t r s v f =
      let r' : TicketRecord Task = record r { ref_count = r.ref_count - 1 } in
      ground (
        arith,
        find-All IsLive t r s.tickets v.live f,
        waiting_of_find t r s.tickets f,
        erase-update t r' s.tickets,
        erase-update t (record r' { task = none }) s.tickets,
      )

  -- Resuming a ticket whose task waits in the table reports it, moves the task to the end of the run
  -- queue, and gives up one reference, with which the ticket goes if it was the last.
  pub resume_waiting :
      (t : ℕ) (r : TicketRecord Task) (x : Task) (s : Scheduler Task)
      → Inv s
      → find t s.tickets ≡ some r
      → r.task ≡ some x
      → (s' : Scheduler Task) × (resume_task_with_ticket t s ≡ some (true, s'))
        × (s'.runnable_tasks ≡ s.runnable_tasks ++ x ∷ [])
        × (s'.suspended_task_count + 1 ≡ s.suspended_task_count)
        × (find t s'.tickets ≡ (
            if r.ref_count == 1
            then none
            else some (record { ref_count = r.ref_count - 1; was_resumed = true; task = none })))
  unfolding resume_task_with_ticket
  resume_waiting t r x s v f e =
      let r' : TicketRecord Task = record {
        ref_count = r.ref_count - 1;
        was_resumed = true;
        task = none;
      } in
      let counted = s.suspended_task_count - 1 in
      let facts = find-All IsLive t r s.tickets v.live f in
      let busy = waiting_of_find t r s.tickets f (ground arith) in
      (
        settle t r' (push x (record s { suspended_task_count = counted })),
        ground (arith, facts, busy),
        ground arith,
        ground (arith, busy),
        ground (
          arith,
          facts,
          erase-update t r' s.tickets,
          find-update t t r' r s.tickets,
          find-erase t t 1 s.next_ticket s.tickets v.ordered,
        ),
      )

  -- Resuming a ticket that holds no task, because its run has not ended or because it was resumed
  -- before, reports nothing resumed and leaves the run queue and the count alone. The reference is
  -- given up, and the ticket is marked.
  pub resume_idle :
      (t : ℕ) (r : TicketRecord Task) (s : Scheduler Task)
      → Inv s
      → find t s.tickets ≡ some r
      → r.task ≡ none
      → (s' : Scheduler Task) × (resume_task_with_ticket t s ≡ some (false, s'))
        × (s'.runnable_tasks ≡ s.runnable_tasks)
        × (s'.suspended_task_count ≡ s.suspended_task_count)
        × (find t s'.tickets ≡ (
            if r.ref_count == 1
            then none
            else some (record { ref_count = r.ref_count - 1; was_resumed = true; task = none })))
  unfolding resume_task_with_ticket
  resume_idle t r s v f e =
      let r' : TicketRecord Task = record {
        ref_count = r.ref_count - 1;
        was_resumed = true;
        task = none;
      } in
      let facts = find-All IsLive t r s.tickets v.live f in
      (
        settle t r' s,
        ground (arith, facts),
        refl,
        refl,
        ground (
          arith,
          facts,
          erase-update t r' s.tickets,
          find-update t t r' r s.tickets,
          find-erase t t 1 s.next_ticket s.tickets v.ordered,
        ),
      )

  -- The two orders of the race after a task was suspended once: the executor finalizes the ticket,
  -- then another thread resumes it, or the other way round.
  abbrev pub finalize_then_resume : Task → Scheduler Task → Option (Scheduler Task)
  finalize_then_resume x s = do
    (t, s1) ← obtain_ticket 2 s
    (left, s2) ← finalize_ticket t (some x) s1
    (did, s3) ← resume_task_with_ticket t s2
    some s3

  abbrev pub resume_then_finalize : Task → Scheduler Task → Option (Scheduler Task)
  resume_then_finalize x s = do
    (t, s1) ← obtain_ticket 2 s
    (did, s2) ← resume_task_with_ticket t s1
    (left, s3) ← finalize_ticket t (some x) s2
    some s3

  -- A task that is suspended once and resumed once ends in the run queue whichever comes first, the
  -- executor's `finalize_ticket` or the other thread's `resume_task_with_ticket`: in both orders no
  -- assertion fails and the scheduler is the same, with the task last in the run queue and no trace
  -- of the ticket but its number, if the ticket numbers stay below 2^64.
  pub resume_race :
      (x : Task) (s : Scheduler Task)
      → Inv s
      → s.next_ticket + 1 < 2 ^ 64
      → let s' = record s {
        runnable_tasks = s.runnable_tasks ++ x ∷ [];
        next_ticket = s.next_ticket + 1;
      } in
        (finalize_then_resume x s ≡ some s') × (resume_then_finalize x s ≡ some s')
  unfolding obtain_ticket finalize_ticket resume_task_with_ticket
  resume_race x s v n =
      let k = s.next_ticket in
      let m = s.tickets in
      let r0 : TicketRecord Task = record { ref_count = 2; was_resumed = false; task = none } in
      let r1 : TicketRecord Task = record { ref_count = 1; was_resumed = false; task = some x } in
      let r2 : TicketRecord Task = record { ref_count = 0; was_resumed = true; task = none } in
      let r3 : TicketRecord Task = record { ref_count = 1; was_resumed = true; task = none } in
      (
        ground (
          arith,
          emplace_last r0 1 k m v.ordered,
          find-snoc_self k r0 1 m v.ordered,
          update-snoc k r0 r1 1 m v.ordered,
          find-snoc_self k r1 1 m v.ordered,
          update-snoc k r1 r2 1 m v.ordered,
          erase-snoc k r2 1 m v.ordered,
          count-lt s v,
        ),
        ground (
          arith,
          emplace_last r0 1 k m v.ordered,
          find-snoc_self k r0 1 m v.ordered,
          update-snoc k r0 r3 1 m v.ordered,
          find-snoc_self k r3 1 m v.ordered,
          update-snoc k r3 r2 1 m v.ordered,
          erase-snoc k r2 1 m v.ordered,
        ),
      )
