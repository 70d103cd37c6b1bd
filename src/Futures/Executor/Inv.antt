-- ===== src/Futures/Executor/Inv.antt =====
-- The invariant of the executor and its threads (bipolar/futures/single_threaded_executor.cpp).
use bipolar.Common.{ℕ, ◌<◌, ◌≡◌, refl, ◌⊎◌, Bool, true, false, [], some, arith}
use bipolar.Futures.Scheduler.{is_empty, has_suspended_tasks, take_runnable_tasks, new}
use bipolar.Common.OrderedMap.{find}
use bipolar.Futures.Scheduler.Invariant.{new-Inv}
use bipolar.Futures.Executor.Balance.{IsBalanced}
use bipolar.Futures.Executor.{Dispatcher, Round, take, leave, wait, wait_round, new_dispatcher}
use bipolar.Futures.Executor.System.{
  Phase, outside, blocked, gone, draining, executing, System, new_system, round_phase,
}

module _ {Task : Type 0} where
  -- While the executor waits: it has asked to be woken and there is nothing for it to do, or a
  -- notification is under way or has arrived.
  abbrev pub Alert : Dispatcher Task → ℕ → Bool → Type 0
  Alert d pending woken =
      ((d.need_wake ≡ true)
        × (d.scheduler.runnable_tasks ≡ [])
        × (0 < d.scheduler.suspended_task_count))
      ⊎ (0 < pending)
      ⊎ (woken ≡ true)

  -- What holds in each phase.
  abbrev pub Holds : Phase Task → Dispatcher Task → ℕ → Bool → Bool → Type 0
  Holds outside d p w x =
      (d.current_task_ticket ≡ 0) × (d.was_shutdown ≡ false) × (d.need_wake ≡ false) × (x ≡ false)
  Holds (draining ts) d p w x =
      (d.current_task_ticket ≡ 0) × (d.was_shutdown ≡ false) × (d.need_wake ≡ false) × (x ≡ false)
  Holds (executing t ts) d p w x = (d.was_shutdown ≡ false) × (d.need_wake ≡ false) × (x ≡ false)
  Holds blocked d p w x =
      (d.current_task_ticket ≡ 0) × (d.was_shutdown ≡ false) × (x ≡ false) × Alert d p w
  Holds gone d p w x =
      (d.current_task_ticket ≡ 0)
      × (d.was_shutdown ≡ true)
      × (d.need_wake ≡ false)
      × (d.scheduler.runnable_tasks ≡ [])
      × (d.scheduler.suspended_task_count ≡ 0)
      × (x ≡ is_empty d.scheduler.tickets)

  pub record IsConsistent (s : System Task) : Type 0 where
    pub balance : IsBalanced s.dispatcher.current_task_ticket s.dispatcher.scheduler s.handles
    pub holds : Holds s.phase s.dispatcher s.pending s.woken s.destroyed

  pub new_system-IsConsistent : IsConsistent new_system
  unfolding new_system new_dispatcher new find
  new_system-IsConsistent = record {
    balance = record { sound = new-Inv; counted = λ k. ground arith; unparked = refl };
    holds = (refl, refl, refl, refl);
  }

  -- A round of the wait.
  pub round-Holds :
      (d d' : Dispatcher Task) (r : Round Task) (p : ℕ)
      → d.current_task_ticket ≡ 0
      → d.need_wake ≡ false
      → wait_round d ≡ some (r, d')
      → Holds (round_phase r) d' p false false
  unfolding wait_round take_runnable_tasks has_suspended_tasks
  round-Holds d d' (take ts) p c n e = ground arith
  round-Holds d d' leave p c n e = ground arith
  round-Holds d d' wait p c n e = ground arith

  pub round_keeps :
      (d d' : Dispatcher Task) (r : Round Task)
      → d.current_task_ticket ≡ 0
      → wait_round d ≡ some (r, d')
      → (d'.scheduler ≡ (let s = d.scheduler in record s { runnable_tasks = [] }))
        × (d'.current_task_ticket ≡ 0)
  unfolding wait_round take_runnable_tasks has_suspended_tasks
  round_keeps d d' r c e = ground arith
