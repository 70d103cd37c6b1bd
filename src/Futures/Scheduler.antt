-- ===== src/Futures/Scheduler.antt =====
-- bipolar/futures/scheduler.hpp and scheduler.cpp: the run queue, the ticket table and its
-- reference counts. A `PendingTask` is `Option Task`: `none` is the empty task, which a move leaves
-- behind. Each operation returns `none` where an assertion fails; the map's find-then-write through
-- an iterator is `find` and `update`.
pub mod Tickets
pub mod Invariant
pub mod Preservation
pub mod Shutdown
pub mod Reachability
pub mod Ownership
pub mod Ledger
pub mod Resumption
pub mod Once
pub mod Lookup
use bipolar.Common.{
  u32, u64, ℕ, suc, ◌+◌, ◌-◌, ◌*◌, ◌%◌, ◌^◌, Bool, true, false, not, ltb, ◌==◌, if◌then◌else◌, List,
  [], ◌∷◌, ◌++◌, Option, none, some, check, ◌>>=◌, ◌>>◌,
}
use bipolar.Common.OrderedMap.{find, emplace, update, erase}

pub record TicketRecord (Task : Type 0) : Type 0 where
  pub ref_count : ℕ
  pub was_resumed : Bool
  pub task : Option Task

pub record Scheduler (Task : Type 0) : Type 0 where
  pub runnable_tasks : List Task
  pub tickets : List (ℕ × TicketRecord Task)
  pub suspended_task_count : ℕ
  pub next_ticket : ℕ

abbrev pub is_some {ℓ} : {A : Type ℓ} → Option A → Bool
is_some none = false
is_some (some a) = true

abbrev pub is_empty {ℓ} : {A : Type ℓ} → List A → Bool
is_empty [] = true
is_empty (x ∷ xs) = false

module _ {Task : Type 0} where
  unfoldable pub new : Scheduler Task
  new = record { runnable_tasks = []; tickets = []; suspended_task_count = 0; next_ticket = 1 }

  pub push : Task → Scheduler Task → Scheduler Task
  push t s = record s { runnable_tasks = s.runnable_tasks ++ t ∷ [] }

  unfoldable pub schedule_task : Option Task → Scheduler Task → Option (Scheduler Task)
  unfolding push
  schedule_task none s = none
  schedule_task (some t) s = some (push t s)

  unfoldable pub obtain_ticket : ℕ → Scheduler Task → Option (ℕ × Scheduler Task)
  obtain_ticket initial_refs s = do
    check (not (initial_refs == 0))
    some (
      s.next_ticket,
      record s {
        next_ticket = u64 (s.next_ticket + 1);
        tickets =
            emplace s.next_ticket
              (record { ref_count = initial_refs; was_resumed = false; task = none }) s.tickets;
      },
    )

  -- The record of a ticket, with the assertions that it is there and still referenced.
  pub live : ℕ → Scheduler Task → Option (TicketRecord Task)
  live ticket s = do r ← find ticket s.tickets; check (not (r.ref_count == 0)); some r

  -- The end of each method that drops a reference: the ticket goes when none is left.
  pub settle : ℕ → TicketRecord Task → Scheduler Task → Scheduler Task
  settle ticket r s = record s {
    tickets =
        if r.ref_count == 0
        then erase ticket (update ticket r s.tickets)
        else update ticket r s.tickets;
  }

  -- The branches on the disposition of the task; the record has one reference less already. The
  -- first component is what the caller's task holds afterwards.
  pub dispose :
      Option Task
      → TicketRecord Task
      → Scheduler Task
      → Option Task × TicketRecord Task × Scheduler Task
  unfolding push
  dispose none r s = (none, r, s)
  dispose (some t) r s =
      if r.was_resumed
      then (none, r, push t s)
      else if ltb 0 r.ref_count
      then (
        none,
        record r { task = some t },
        record s { suspended_task_count = u64 (s.suspended_task_count + 1) },
      )
      else (some t, r, s)

  unfoldable pub finalize_ticket :
      ℕ → Option Task → Scheduler Task → Option (Option Task × Scheduler Task)
  unfolding live dispose settle
  finalize_ticket ticket task s = do
    r ← live ticket s
    check (not (is_some r.task))
    let (left, r', s') = dispose task (record r { ref_count = r.ref_count - 1 }) s
    some (left, settle ticket r' s')

  unfoldable pub duplicate_ticket : ℕ → Scheduler Task → Option (Scheduler Task)
  unfolding live
  duplicate_ticket ticket s = do
    r ← live ticket s
    some (record s {
      tickets = update ticket (record r { ref_count = u32 (r.ref_count + 1) }) s.tickets;
    })

  -- `--suspended_task_count_` under its assertion.
  pub drop_suspended : Scheduler Task → Option (Scheduler Task)
  drop_suspended s = do
    check (ltb 0 s.suspended_task_count)
    some (record s { suspended_task_count = s.suspended_task_count - 1 })

  -- The last reference is gone: the task moves out to the caller.
  pub abandon :
      ℕ → Option Task → TicketRecord Task → Scheduler Task → Option (Option Task × Scheduler Task)
  unfolding drop_suspended
  abandon ticket none r s =
      some (none, record s { tickets = erase ticket (update ticket r s.tickets) })
  abandon ticket (some t) r s = do
    s' ← drop_suspended s
    some (
      some t,
      record s' { tickets = erase ticket (update ticket (record r { task = none }) s'.tickets) },
    )

  unfoldable pub release_ticket : ℕ → Scheduler Task → Option (Option Task × Scheduler Task)
  unfolding live abandon
  release_ticket ticket s = do
    r ← live ticket s
    let r' = record r { ref_count = r.ref_count - 1 }
    (if r'.ref_count == 0
        then abandon ticket r'.task r' s
        else some (none, record s { tickets = update ticket r' s.tickets }))

  -- The part under `if (!was_resumed)`.
  pub resume :
      Option Task
      → TicketRecord Task
      → Scheduler Task
      → Option (Bool × TicketRecord Task × Scheduler Task)
  unfolding drop_suspended push
  resume none r s = some (false, record r { was_resumed = true }, s)
  resume (some t) r s = do
    s' ← drop_suspended s
    some (true, record r { was_resumed = true; task = none }, push t s')

  unfoldable pub resume_task_with_ticket : ℕ → Scheduler Task → Option (Bool × Scheduler Task)
  unfolding live resume settle
  resume_task_with_ticket ticket s = do
    r ← live ticket s
    let r' = record r { ref_count = r.ref_count - 1 }
    (did_resume, r'', s') ← (if r'.was_resumed then some (false, r', s) else resume r'.task r' s)
    some (did_resume, settle ticket r'' s')

  -- `tasks` is empty, as asserted, so the swap moves the queue out.
  unfoldable pub take_runnable_tasks :
      List Task → Scheduler Task → Option (List Task × Scheduler Task)
  take_runnable_tasks tasks s = do
    check (is_empty tasks)
    some (s.runnable_tasks, record s { runnable_tasks = tasks })

  -- The loop over the tickets: each entry's task is pushed, also an empty one.
  pub take_suspended :
      List (ℕ × TicketRecord Task)
      → ℕ
      → Option (List (Option Task) × List (ℕ × TicketRecord Task) × ℕ)
  take_suspended [] count = some ([], [], count)
  take_suspended ((k, r) ∷ m) count =
      let rest = take_suspended m (count - 1) in
      do
        check (ltb 0 count)
        (tasks, m', count') ← rest
        some (r.task ∷ tasks, (k, record r { task = none }) ∷ m', count')

  -- The caller's queue holds `PendingTask`s, which may be empty.
  unfoldable pub full : List Task → List (Option Task)
  full [] = []
  full (t ∷ ts) = some t ∷ full ts

  pub take_tickets :
      List (Option Task) → Scheduler Task → Option (List (Option Task) × Scheduler Task)
  unfolding take_suspended
  take_tickets runnable s = do
    (tasks, tickets', count) ← take_suspended s.tickets s.suspended_task_count
    some (
      runnable ++ tasks,
      record s { runnable_tasks = []; tickets = tickets'; suspended_task_count = count },
    )

  unfoldable pub take_all_tasks :
      List (Option Task) → Scheduler Task → Option (List (Option Task) × Scheduler Task)
  unfolding take_tickets full
  take_all_tasks tasks s = do
    check (is_empty tasks)
    (if ltb 0 s.suspended_task_count
        then take_tickets (full s.runnable_tasks) s
        else some (full s.runnable_tasks, record s { runnable_tasks = [] }))

  unfoldable pub has_runnable_tasks : Scheduler Task → Bool
  has_runnable_tasks s = not (is_empty s.runnable_tasks)

  unfoldable pub has_suspended_tasks : Scheduler Task → Bool
  has_suspended_tasks s = ltb 0 s.suspended_task_count

  unfoldable pub has_outstanding_tickets : Scheduler Task → Bool
  has_outstanding_tickets s = not (is_empty s.tickets)
