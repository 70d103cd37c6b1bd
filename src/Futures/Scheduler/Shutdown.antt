-- ===== src/Futures/Scheduler/Shutdown.antt =====
-- `Scheduler::take_all_tasks` (bipolar/futures/scheduler.cpp): what it returns, and when it cannot.
use bipolar.Common.{
  ℕ, suc, ◌-◌, ◌≤◌, ◌<◌, ◌≡◌, refl, ltb, if◌then◌else◌, List, [], ◌∷◌, ◌++◌, Option, none, some,
  arith, All, length, Ensures, if_cases,
}
use bipolar.Common.OrderedMap.{Ordered}
use bipolar.Futures.Scheduler.{TicketRecord, Scheduler, take_suspended, take_all_tasks, full}
use bipolar.Futures.Scheduler.Tickets.{IsLive, waiting, waiting-le-length}
use bipolar.Futures.Scheduler.Invariant.{Inv}

module _ {Task : Type 0} where
  -- The table after every task has been moved out.
  abbrev pub emptied : List (ℕ × TicketRecord Task) → List (ℕ × TicketRecord Task)
  emptied [] = []
  emptied ((k, r) ∷ m) = (k, record r { task = none }) ∷ emptied m

  abbrev pub tasks_of : List (ℕ × TicketRecord Task) → List (Option Task)
  tasks_of [] = []
  tasks_of ((k, r) ∷ m) = r.task ∷ tasks_of m

  emptied-Ordered :
      (lo hi : ℕ) (m : List (ℕ × TicketRecord Task)) → Ordered lo hi m → Ordered lo hi (emptied m)
  emptied-Ordered lo hi [] o = o
  emptied-Ordered lo hi ((k, r) ∷ m) o = (o.0, emptied-Ordered (suc k) hi m o.1)

  emptied-live :
      (m : List (ℕ × TicketRecord Task))
      → All (λ e. IsLive e.1) m
      → All (λ e. IsLive e.1) (emptied m)
  emptied-live [] a = tt
  emptied-live ((k, r) ∷ m) a = (
    record { referenced = a.0.referenced; fits = a.0.fits; unresumed = λ e. cc },
    emptied-live m a.1,
  )

  waiting-emptied : (m : List (ℕ × TicketRecord Task)) → waiting (emptied m) ≡ 0
  waiting-emptied [] = refl
  waiting-emptied ((k, r) ∷ m) = omega (arith, waiting-emptied m)

  -- The loop passes its assertion in every round only with a count for every ticket.
  take_suspended_lem :
      (m : List (ℕ × TicketRecord Task)) (count : ℕ)
      → length m ≤ count
      → take_suspended m count ≡ some (tasks_of m, emptied m, count - length m)
  unfolding take_suspended
  take_suspended_lem [] count h = ground arith
  take_suspended_lem ((k, r) ∷ m) count h = ground (arith, take_suspended_lem m (count - 1))

  take_suspended_short :
      (m : List (ℕ × TicketRecord Task)) (count : ℕ)
      → count < length m
      → take_suspended m count ≡ none
  unfolding take_suspended
  take_suspended_short [] count h = absurd (omega arith)
  take_suspended_short ((k, r) ∷ m) count h = ground (arith, take_suspended_short m (count - 1))

  -- What `take_all_tasks` does in a state that satisfies the invariant. With no suspended task it
  -- moves the run queue out. If every ticket holds a suspended task it moves these out too, behind
  -- the run queue and in the order of the tickets. In all other states, where some ticket holds a
  -- suspended task and some other does not, an assertion fails.
  pub take_all_tasks_lem :
      (s : Scheduler Task)
      → Inv s
      → take_all_tasks [] s ≡ (
          if ltb 0 (waiting s.tickets)
          then if ltb (waiting s.tickets) (length s.tickets)
            then none
            else some (
              full s.runnable_tasks ++ tasks_of s.tickets,
              record s {
                runnable_tasks = [];
                tickets = emptied s.tickets;
                suspended_task_count = 0;
              },
            )
          else some (full s.runnable_tasks, record s { runnable_tasks = [] }))
  unfolding take_all_tasks
  take_all_tasks_lem s v = ground (
    arith,
    take_suspended_lem s.tickets s.suspended_task_count,
    take_suspended_short s.tickets s.suspended_task_count,
    waiting-le-length s.tickets,
  )

  pub take_all_tasks-Ensures :
      (s : Scheduler Task) → Inv s → Ensures (λ p. Inv p.1) (take_all_tasks [] s)
  take_all_tasks-Ensures s v =
      let P : List (Option Task) × Scheduler Task → Type 0 = λ p. Inv p.1 in
      rw (take_all_tasks_lem s v) (
        if_cases (Ensures P) (ltb 0 (waiting s.tickets))
          (λ _.
            if_cases (Ensures P) (ltb (waiting s.tickets) (length s.tickets)) (λ _. tt)
              (λ _. record {
                ordered = emptied-Ordered 1 s.next_ticket s.tickets v.ordered;
                live = emptied-live s.tickets v.live;
                counted = omega (arith, waiting-emptied s.tickets);
                unwrapped = v.unwrapped;
              }))
          (λ _. record {
            ordered = v.ordered;
            live = v.live;
            counted = v.counted;
            unwrapped = v.unwrapped;
          }))
