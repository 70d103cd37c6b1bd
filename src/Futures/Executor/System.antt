-- ===== src/Futures/Executor/System.antt =====
-- The threads around the dispatcher (bipolar/futures/single_threaded_executor.cpp): the thread that runs
-- the executor, the threads that schedule tasks, and the holders of suspended tasks. A step is one
-- stretch with the mutex held, or one `notify_one`.
use bipolar.Common.{
  put, ℕ, ◌+◌, ◌-◌, ◌^◌, ◌<◌, ◌≡◌, ◌≢◌, Bool, true, false, ◌||◌, List, [], ◌∷◌, Option, some,
}
use bipolar.Futures.Executor.{
  After, nothing, notify, destroy, Dispatcher, Round, take, leave, wait, new_dispatcher, shutdown,
  schedule_task, suspend_current_task, duplicate_ticket, resolve_ticket, wait_round, woken_round,
  begin_task, end_task,
}

-- Where the executor's thread is: outside `run`, in the wait of `wait_for_runnable_tasks`, in `run`
-- with tasks in its queue, in the call of the first of these, or after the executor's destruction.
pub data Phase (Task : Type 0) : Type 0 where
  outside blocked gone : Phase Task
  draining : List Task → Phase Task
  executing : Task → List Task → Phase Task

-- `handles k` is how many `SuspendedTask`s there are for ticket k; `pending`, how many threads still
-- have to call `notify_one`; `woken` tells that the wait was notified.
pub record System (Task : Type 0) : Type 0 where
  pub dispatcher : Dispatcher Task
  pub phase : Phase Task
  pub handles : ℕ → ℕ
  pub pending : ℕ
  pub woken : Bool
  pub destroyed : Bool

abbrev pub signals : After → ℕ
signals nothing = 0
signals notify = 1
signals destroy = 0

abbrev pub destroys : After → Bool
destroys nothing = false
destroys notify = false
destroys destroy = true

-- What a notification does: it ends the wait, if there is one.
abbrev pub notified : {Task : Type 0} → Phase Task → Bool → Bool
notified blocked woken = true
notified outside woken = woken
notified gone woken = woken
notified (draining ts) woken = woken
notified (executing t ts) woken = woken

module _ {Task : Type 0} where
  unfoldable pub new_system : System Task
  unfolding new_dispatcher
  new_system = record {
    dispatcher = new_dispatcher;
    phase = outside;
    handles = λ k. 0;
    pending = 0;
    woken = false;
    destroyed = false;
  }

  abbrev pub round_phase : Round Task → Phase Task
  round_phase (take tasks) = draining tasks
  round_phase leave = outside
  round_phase wait = blocked

  abbrev pub round_system : Round Task → Dispatcher Task → System Task → System Task
  round_system r d s = record s { dispatcher = d; phase = round_phase r; woken = false }

-- `run` is called outside it; its loop asks for tasks again when its queue is empty. A wait can end
-- by a notification or without one. A task that is called may suspend itself, and then ends; it may be
-- finished or not. The owner of the executor neither schedules nor runs after its destruction.
pub data Step {Task : Type 0} (s : System Task) : System Task → Type 0 where
  run :
      (r : Round Task) (d : Dispatcher Task)
      → s.phase ≡ outside
      → wait_round s.dispatcher ≡ some (r, d)
      → Step s (round_system r d s)
  again :
      (r : Round Task) (d : Dispatcher Task)
      → s.phase ≡ draining []
      → wait_round s.dispatcher ≡ some (r, d)
      → Step s (round_system r d s)
  wake :
      (r : Round Task) (d : Dispatcher Task)
      → s.phase ≡ blocked
      → woken_round s.dispatcher ≡ some (r, d)
      → Step s (round_system r d s)
  begin :
      (t : Task) (ts : List Task)
      → s.phase ≡ draining (t ∷ ts)
      → begin_task s.dispatcher ≡ some tt
      → Step s (record s { phase = executing t ts })
  suspend :
      (t : Task) (ts : List Task) (k : ℕ) (d : Dispatcher Task)
      → s.phase ≡ executing t ts
      → suspend_current_task s.dispatcher ≡ some (k, d)
      → s.dispatcher.scheduler.next_ticket + 1 < 2 ^ 64
      → s.handles s.dispatcher.current_task_ticket + 2 < 2 ^ 32
      → Step s (record s { dispatcher = d; handles = put s.handles k (s.handles k + 1) })
  end :
      (t : Task) (ts : List Task) (finished : Bool) (task left : Option Task) (d : Dispatcher Task)
      → s.phase ≡ executing t ts
      → end_task finished task s.dispatcher ≡ some (left, d)
      → Step s (record s { dispatcher = d; phase = draining ts })
  schedule :
      (task : Option Task) (a : After) (d : Dispatcher Task)
      → s.phase ≢ gone
      → schedule_task task s.dispatcher ≡ some (a, d)
      → Step s (record s { dispatcher = d; pending = s.pending + signals a })
  copy :
      (k : ℕ) (d : Dispatcher Task)
      → 0 < s.handles k
      → duplicate_ticket k s.dispatcher ≡ some d
      → s.handles k + 2 < 2 ^ 32
      → Step s (record s { dispatcher = d; handles = put s.handles k (s.handles k + 1) })
  resolve :
      (k : ℕ) (b : Bool) (abandoned : Option Task) (a : After) (d : Dispatcher Task)
      → 0 < s.handles k
      → resolve_ticket k b s.dispatcher ≡ some (abandoned, a, d)
      → Step s (record s {
        dispatcher = d;
        handles = put s.handles k (s.handles k - 1);
        pending = s.pending + signals a;
        destroyed = s.destroyed || destroys a;
      })
  deliver :
      0 < s.pending
      → Step s (record s { pending = s.pending - 1; woken = notified s.phase s.woken })
  close :
      (tasks : List (Option Task)) (a : After) (d : Dispatcher Task)
      → s.phase ≡ outside
      → shutdown s.dispatcher ≡ some (a, tasks, d)
      → Step s (record s { dispatcher = d; phase = gone; destroyed = s.destroyed || destroys a })

pub data Reach {Task : Type 0} : System Task → Type 0 where
  here : Reach new_system
  next : {s s' : System Task} → Reach s → Step s s' → Reach s'
