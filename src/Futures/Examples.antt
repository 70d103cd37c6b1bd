-- ===== src/Futures/Examples.antt =====
-- The theorems about bipolar/futures at concrete inputs. Tasks are numbers.
mod Executor
mod Handles
mod Join
mod Made
mod Runs
use bipolar.Common.{ℕ, ◌+◌, ◌≡◌, refl, true, false, [], ◌∷◌, none, some, arith}
use bipolar.Futures.Scheduler.{
  TicketRecord, Scheduler, new, schedule_task, obtain_ticket, finalize_ticket, release_ticket,
  resume_task_with_ticket, take_all_tasks, take_runnable_tasks,
}
use bipolar.Common.OrderedMap.{find, emplace, update, erase}
use bipolar.Futures.Scheduler.Invariant.{Inv}
use bipolar.Futures.Scheduler.Reachability.{
  Step, obtain, finalize, schedule, take_runnable, Reach, here, next, Reach-Inv,
}
use bipolar.Futures.Scheduler.Ledger.{all_in, all_out, all_in-owned}
use bipolar.Futures.Scheduler.Ownership.{owned}
use bipolar.Futures.Scheduler.Shutdown.{take_all_tasks_lem}
use bipolar.Futures.Scheduler.Once.{resume_once}
use bipolar.Futures.Scheduler.Resumption.{
  finalize_then_resume, resume_then_finalize, resume_race, release_ticket_lem,
}

-- Task 9 waits under ticket 1, which two handles refer to; task 8 can run.
abbrev parked : TicketRecord ℕ
parked = record { ref_count = 2; was_resumed = false; task = some 9 }

abbrev one_parked : Scheduler ℕ
one_parked = record {
  runnable_tasks = 8 ∷ [];
  tickets = (1, parked) ∷ [];
  suspended_task_count = 1;
  next_ticket = 2;
}

-- Ticket 2 is still held by one handle, although its task is done.
abbrev spent : TicketRecord ℕ
spent = record { ref_count = 1; was_resumed = false; task = none }

abbrev two_tickets : Scheduler ℕ
two_tickets = record one_parked { tickets = (1, parked) ∷ (2, spent) ∷ []; next_ticket = 3 }

one_parked-Inv : Inv one_parked
one_parked-Inv = record {
  ordered = omega arith;
  live = (record { referenced = omega arith; fits = omega arith; unresumed = λ e. refl }, tt);
  counted = refl;
  unwrapped = omega arith;
}

two_tickets-Inv : Inv two_tickets
two_tickets-Inv = record {
  ordered = omega arith;
  live = (
    record { referenced = omega arith; fits = omega arith; unresumed = λ e. refl },
    (record { referenced = omega arith; fits = omega arith; unresumed = λ e. cc }, tt),
  );
  counted = refl;
  unwrapped = omega arith;
}

abbrev queued : Scheduler ℕ
queued = record { runnable_tasks = 8 ∷ []; tickets = []; suspended_task_count = 0; next_ticket = 1 }

abbrev ticketed : Scheduler ℕ
ticketed = record queued {
  tickets = (1, record { ref_count = 3; was_resumed = false; task = none }) ∷ [];
  next_ticket = 2;
}

to_one_parked : Reach new one_parked
unfolding new obtain_ticket finalize_ticket schedule_task find emplace update
to_one_parked =
    let start : Reach new new = here in
    let first : Step new queued = schedule (some 8) refl in
    let second : Step queued ticketed = obtain 3 1 (omega arith) (omega arith) refl in
    next (next (next start first) second) (finalize 1 (some 9) none refl)

Reach-Inv_example : Inv one_parked
Reach-Inv_example = Reach-Inv one_parked to_one_parked

all_in-owned_example :
    all_in (λ x. x) to_one_parked ≡ all_out (λ x. x) to_one_parked + owned (λ x. x) one_parked
all_in-owned_example = all_in-owned (λ x. x) one_parked to_one_parked

take_all_tasks_lem_example : take_all_tasks [] two_tickets ≡ none
take_all_tasks_lem_example = take_all_tasks_lem two_tickets two_tickets-Inv

resume_race_example :
    (finalize_then_resume 7 one_parked
      ≡ some (record one_parked { runnable_tasks = 8 ∷ 7 ∷ []; next_ticket = 3 }))
    × (resume_then_finalize 7 one_parked
        ≡ some (record one_parked { runnable_tasks = 8 ∷ 7 ∷ []; next_ticket = 3 }))
resume_race_example = resume_race 7 one_parked one_parked-Inv (omega arith)

-- The ticket after the resumption, and after the run queue was taken.
abbrev one_resumed : Scheduler ℕ
one_resumed = record {
  runnable_tasks = 8 ∷ 9 ∷ [];
  tickets = (1, record { ref_count = 1; was_resumed = true; task = none }) ∷ [];
  suspended_task_count = 0;
  next_ticket = 2;
}

abbrev one_taken : Scheduler ℕ
one_taken = record one_resumed { runnable_tasks = [] }

resumes : resume_task_with_ticket 1 one_parked ≡ some (true, one_resumed)
unfolding resume_task_with_ticket find update
resumes = refl

to_one_taken : Reach one_resumed one_taken
unfolding take_runnable_tasks
to_one_taken = next here (take_runnable (8 ∷ 9 ∷ []) refl)

resume_once_example :
    (s : Scheduler ℕ) × (resume_task_with_ticket 1 one_taken ≡ some (false, s))
    × (s.runnable_tasks ≡ [])
    × (s.suspended_task_count ≡ 0)
unfolding find
resume_once_example =
    resume_once 1 true (record { ref_count = 1; was_resumed = true; task = none }) one_parked
      one_resumed one_taken one_parked-Inv resumes to_one_taken refl

release_ticket_lem_example :
    release_ticket 1 one_parked
    ≡ some (
      none,
      record one_parked {
        tickets = (1, record { ref_count = 1; was_resumed = false; task = some 9 }) ∷ [];
      },
    )
unfolding find update
release_ticket_lem_example = release_ticket_lem 1 parked one_parked one_parked-Inv refl
