-- ===== src/Futures/Scheduler/Ledger.antt =====
-- The tasks that go into a scheduler (bipolar/futures/scheduler.hpp) over a history, and those that
-- come out again.
use bipolar.Common.{ℕ, ◌+◌, ◌≡◌, refl, arith, weigh, weigh_opt, ensured}
use bipolar.Futures.Scheduler.{Scheduler, new}
use bipolar.Futures.Scheduler.Invariant.{Inv}
use bipolar.Futures.Scheduler.Reachability.{
  Step, schedule, obtain, finalize, duplicate, release, resume, take_runnable, take_all, Reach,
  here, next, Reach-Inv,
}
use bipolar.Futures.Scheduler.Ownership.{
  owned, schedule_task-owned, obtain_ticket-owned, finalize_ticket-owned, duplicate_ticket-owned,
  release_ticket-owned, resume_task_with_ticket-owned, take_runnable_tasks-owned,
  take_all_tasks-owned,
}

module _ {Task : Type 0} (w : Task → ℕ) where
  -- What the caller hands in with a call, and what it gets back.
  abbrev pub handed_in : {s s' : Scheduler Task} → Step s s' → ℕ
  handed_in (schedule task e) = weigh_opt w task
  handed_in (finalize t task left e) = weigh_opt w task
  handed_in _ = 0

  abbrev pub handed_out : {s s' : Scheduler Task} → Step s s' → ℕ
  handed_out (finalize t task left e) = weigh_opt w left
  handed_out (release t left e) = weigh_opt w left
  handed_out (take_runnable tasks e) = weigh w tasks
  handed_out (take_all tasks e) = weigh (weigh_opt w) tasks
  handed_out _ = 0

  Step-owned :
      (s s' : Scheduler Task) (st : Step s s')
      → Inv s
      → handed_in st + owned w s ≡ handed_out st + owned w s'
  Step-owned s s' (schedule task e) v = omega (
    arith,
    ensured (λ s'. weigh_opt w task + owned w s ≡ owned w s') (schedule_task-owned w task s) e,
  )
  Step-owned s s' (obtain refs t b n e) v =
      omega (arith, ensured (λ p. owned w s ≡ owned w p.1) (obtain_ticket-owned w refs s v) e)
  Step-owned s s' (finalize t task left e) v =
      ensured (λ p. weigh_opt w task + owned w s ≡ weigh_opt w p.0 + owned w p.1)
        (finalize_ticket-owned w t task s) e
  Step-owned s s' (duplicate t room e) v =
      omega (arith, ensured (λ s'. owned w s ≡ owned w s') (duplicate_ticket-owned w t s) e)
  Step-owned s s' (release t left e) v = omega (
    arith,
    ensured (λ p. owned w s ≡ weigh_opt w p.0 + owned w p.1) (release_ticket-owned w t s) e,
  )
  Step-owned s s' (resume t did e) v =
      omega
        (arith, ensured (λ p. owned w s ≡ owned w p.1) (resume_task_with_ticket-owned w t s v) e)
  Step-owned s s' (take_runnable tasks e) v = omega (
    arith,
    ensured (λ p. owned w s ≡ weigh w p.0 + owned w p.1) (take_runnable_tasks-owned w s) e,
  )
  Step-owned s s' (take_all tasks e) v =
      let h =
        ensured (λ p. (owned w s ≡ weigh (weigh_opt w) p.0) × (owned w p.1 ≡ 0))
          (take_all_tasks-owned w s v) e in
      omega (arith, h)

  abbrev pub all_in : {s s' : Scheduler Task} → Reach s s' → ℕ
  all_in here = 0
  all_in (next r st) = all_in r + handed_in st

  abbrev pub all_out : {s s' : Scheduler Task} → Reach s s' → ℕ
  all_out here = 0
  all_out (next r st) = all_out r + handed_out st

  -- Over every history of calls from a new scheduler, the tasks handed in by `schedule_task` and
  -- `finalize_ticket` are those that came out again (of `finalize_ticket`, `release_ticket`,
  -- `take_runnable_tasks` and `take_all_tasks`) and those that the scheduler owns, runnable or
  -- suspended, each as often: the two sides weigh the same under every weighing of tasks.
  pub all_in-owned : (s : Scheduler Task) (r : Reach new s) → all_in r ≡ all_out r + owned w s
  unfolding new
  all_in-owned s here = refl
  all_in-owned s (next {t} {u} r st) =
      omega (arith, all_in-owned t r, Step-owned t u st (Reach-Inv t r))
