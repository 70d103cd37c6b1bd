-- ===== src/Futures/Scheduler/Ownership.antt =====
-- Nobody loses a task: what each operation of the scheduler (bipolar/futures/scheduler.cpp) does to
-- the tasks in the run queue and in the ticket table, weighed by any `w`.
use bipolar.Common.{
  u32, u64, ℕ, ◌+◌, ◌-◌, ◌≡◌, Bool, true, false, not, ltb, ◌==◌, if◌then◌else◌, List, [], ◌∷◌,
  Option, none, some, arith, weigh, weigh_opt, weigh-append, Ensures, Ensures-bind, Ensures-check,
  ensured, if_cases, inl, inr, Bool-cases, refl, length,
}
use bipolar.Common.OrderedMap.{find, erase-update, find-All, emplace_last}
use bipolar.Futures.Scheduler.{
  TicketRecord, Scheduler, is_some, live, settle, dispose, schedule_task, finalize_ticket,
  release_ticket, resume_task_with_ticket, abandon, resume, take_all_tasks, full, push,
  take_runnable_tasks, obtain_ticket, duplicate_ticket,
}
use bipolar.Futures.Scheduler.Tickets.{IsLive, held, held-append, held-update, held-erase, waiting}
use bipolar.Futures.Scheduler.Invariant.{Inv, find_of_live}
use bipolar.Futures.Scheduler.Shutdown.{tasks_of, emptied, take_all_tasks_lem}

module _ {Task : Type 0} (w : Task → ℕ) where
  -- The weight of the tasks that the scheduler owns, runnable and suspended.
  abbrev pub owned : Scheduler Task → ℕ
  owned s = weigh w s.runnable_tasks + held w s.tickets

  settle-owned :
      (k : ℕ) (r r' : TicketRecord Task) (s : Scheduler Task)
      → find k s.tickets ≡ some r
      → (r'.ref_count ≡ 0 → r'.task ≡ none)
      → owned (settle k r' s) + weigh_opt w r.task ≡ owned s + weigh_opt w r'.task
  unfolding settle
  settle-owned k r r' s f z = ground (
    arith,
    erase-update k r' s.tickets,
    held-erase w k r s.tickets,
    held-update w k r r' s.tickets,
  )

  dispose-owned :
      (t : ℕ) (task : Option Task) (r : TicketRecord Task) (s : Scheduler Task)
      → find t s.tickets ≡ some r
      → r.task ≡ none
      → let d = dispose task (record r { ref_count = r.ref_count - 1 }) s in
        weigh_opt w task + owned s ≡ weigh_opt w d.0 + owned (settle t d.1 d.2)
  unfolding dispose
  dispose-owned t none r s f e =
      ground (arith, settle-owned t r (record r { ref_count = r.ref_count - 1 }) s)
  dispose-owned t (some x) r s f e =
      let r' : TicketRecord Task = record r { ref_count = r.ref_count - 1 } in
      let P : Option Task × TicketRecord Task × Scheduler Task → Type 0 =
        λ d. w x + owned s ≡ weigh_opt w d.0 + owned (settle t d.1 d.2) in
      if_cases P r.was_resumed
        (λ _.
          ground (arith, settle-owned t r r' (push x s), weigh-append w s.runnable_tasks (x ∷ [])))
        (λ _.
          if_cases P (ltb 0 r'.ref_count)
            (λ more.
              let s' : Scheduler Task = record s {
                suspended_task_count = u64 (s.suspended_task_count + 1);
              } in
              ground (arith, settle-owned t r (record r' { task = some x }) s'))
            (λ _. ground (arith, settle-owned t r r' s)))

  pub finalize_ticket-owned :
      (t : ℕ) (task : Option Task) (s : Scheduler Task)
      → Ensures
          (λ p. weigh_opt w task + owned s ≡ weigh_opt w p.0 + owned p.1)
          (finalize_ticket t task s)
  unfolding finalize_ticket
  finalize_ticket-owned t task s =
      let P : Option Task × Scheduler Task → Type 0 =
        λ p. weigh_opt w task + owned s ≡ weigh_opt w p.0 + owned p.1 in
      Ensures-bind P (live t s) _ (λ r e.
        Ensures-check P (not (is_some r.task)) _
          (λ empty. dispose-owned t task r s (find_of_live t s e) (ground arith)))

  pub schedule_task-owned :
      (task : Option Task) (s : Scheduler Task)
      → Ensures (λ s'. weigh_opt w task + owned s ≡ owned s') (schedule_task task s)
  unfolding schedule_task
  schedule_task-owned none s = tt
  schedule_task-owned (some t) s = omega (arith, weigh-append w s.runnable_tasks (t ∷ []))

  pub duplicate_ticket-owned :
      (t : ℕ) (s : Scheduler Task) → Ensures (λ s'. owned s ≡ owned s') (duplicate_ticket t s)
  unfolding duplicate_ticket
  duplicate_ticket-owned t s =
      Ensures-bind (λ s'. owned s ≡ owned s') (live t s) _
        (λ r e.
          let r' : TicketRecord Task = record r { ref_count = u32 (r.ref_count + 1) } in
          omega (arith, held-update w t r r' s.tickets (find_of_live t s e)))

  abandon-owned :
      (t : ℕ) (o : Option Task) (r r' : TicketRecord Task) (s : Scheduler Task)
      → find t s.tickets ≡ some r
      → r.task ≡ o
      → Ensures (λ p. owned s ≡ weigh_opt w p.0 + owned p.1) (abandon t o r' s)
  unfolding abandon
  abandon-owned t none r r' s f e =
      ground (arith, erase-update t r' s.tickets, held-erase w t r s.tickets)
  abandon-owned t (some x) r r' s f e =
      let r'' : TicketRecord Task = record r' { task = none } in
      elim (Bool-cases (ltb 0 s.suspended_task_count)) [
        | inl pos ↦
            rw pos (ground (arith, erase-update t r'' s.tickets, held-erase w t r s.tickets))
        | inr stop ↦ rw stop tt
      ]

  pub release_ticket-owned :
      (t : ℕ) (s : Scheduler Task)
      → Ensures (λ p. owned s ≡ weigh_opt w p.0 + owned p.1) (release_ticket t s)
  unfolding release_ticket
  release_ticket-owned t s =
      let P : Option Task × Scheduler Task → Type 0 = λ p. owned s ≡ weigh_opt w p.0 + owned p.1 in
      Ensures-bind P (live t s) _ (λ r e.
        let f = find_of_live t s e in
        let r' : TicketRecord Task = record r { ref_count = r.ref_count - 1 } in
        if_cases (Ensures P) (r'.ref_count == 0) (λ _. abandon-owned t r.task r r' s f refl)
          (λ _. omega (arith, held-update w t r r' s.tickets f)))

  resume-owned :
      (t : ℕ) (o : Option Task) (r r' : TicketRecord Task) (s : Scheduler Task)
      → find t s.tickets ≡ some r
      → r.task ≡ o
      → r'.task ≡ o
      → Ensures (λ p. owned s ≡ owned (settle t p.1 p.2)) (resume o r' s)
  unfolding resume
  resume-owned t none r r' s f e e' =
      ground (arith, settle-owned t r (record r' { was_resumed = true }) s)
  resume-owned t (some x) r r' s f e e' =
      let r'' : TicketRecord Task = record r' { was_resumed = true; task = none } in
      let s' : Scheduler Task =
        push x (record s { suspended_task_count = s.suspended_task_count - 1 }) in
      elim (Bool-cases (ltb 0 s.suspended_task_count)) [
        | inl pos ↦
            rw pos
              (ground (arith, settle-owned t r r'' s', weigh-append w s.runnable_tasks (x ∷ [])))
        | inr stop ↦ rw stop tt
      ]

  pub resume_task_with_ticket-owned :
      (t : ℕ) (s : Scheduler Task)
      → Inv s
      → Ensures (λ p. owned s ≡ owned p.1) (resume_task_with_ticket t s)
  unfolding resume_task_with_ticket
  resume_task_with_ticket-owned t s v =
      let P : Bool × Scheduler Task → Type 0 = λ p. owned s ≡ owned p.1 in
      let Q : Bool × TicketRecord Task × Scheduler Task → Type 0 =
        λ p. owned s ≡ owned (settle t p.1 p.2) in
      Ensures-bind P (live t s) _ (λ r e.
        let f = find_of_live t s e in
        let l = find-All IsLive t r s.tickets v.live f in
        let r' : TicketRecord Task = record r { ref_count = r.ref_count - 1 } in
        Ensures-bind P (if r'.was_resumed then some (false, r', s) else resume r'.task r' s) _
          (λ p h.
            ensured Q
              (if_cases (Ensures Q) r'.was_resumed (λ d. ground (arith, settle-owned t r r' s, l))
                (λ _. resume-owned t r.task r r' s f refl refl))
              h))

  held_of_waiting : (m : List (ℕ × TicketRecord Task)) → waiting m ≡ 0 → held w m ≡ 0
  held_of_waiting [] h = refl
  held_of_waiting ((k, r) ∷ m) h = ground (arith, held_of_waiting m)

  weigh-full : (ts : List Task) → weigh (weigh_opt w) (full ts) ≡ weigh w ts
  unfolding full
  weigh-full [] = refl
  weigh-full (t ∷ ts) = omega (arith, weigh-full ts)

  weigh-tasks_of : (m : List (ℕ × TicketRecord Task)) → weigh (weigh_opt w) (tasks_of m) ≡ held w m
  weigh-tasks_of [] = refl
  weigh-tasks_of ((k, r) ∷ m) = omega (arith, weigh-tasks_of m)

  held-emptied : (m : List (ℕ × TicketRecord Task)) → held w (emptied m) ≡ 0
  held-emptied [] = refl
  held-emptied ((k, r) ∷ m) = omega (arith, held-emptied m)

  -- The queue that the caller gets has everything, and the scheduler keeps nothing.
  pub take_all_tasks-owned :
      (s : Scheduler Task)
      → Inv s
      → Ensures (λ p. (owned s ≡ weigh (weigh_opt w) p.0) × (owned p.1 ≡ 0)) (take_all_tasks [] s)
  take_all_tasks-owned s v =
      let P : List (Option Task) × Scheduler Task → Type 0 =
        λ p. (owned s ≡ weigh (weigh_opt w) p.0) × (owned p.1 ≡ 0) in
      rw (take_all_tasks_lem s v) (
        if_cases (Ensures P) (ltb 0 (waiting s.tickets))
          (λ _.
            if_cases (Ensures P) (ltb (waiting s.tickets) (length s.tickets)) (λ _. tt)
              (λ _. omega (
                arith,
                weigh-append (weigh_opt w) (full s.runnable_tasks) (tasks_of s.tickets),
                weigh-full s.runnable_tasks,
                weigh-tasks_of s.tickets,
                held-emptied s.tickets,
              )))
          (λ idle.
            let none_held = held_of_waiting s.tickets (ground arith) in
            omega (arith, none_held, weigh-full s.runnable_tasks)))

  pub take_runnable_tasks-owned :
      (s : Scheduler Task)
      → Ensures (λ p. owned s ≡ weigh w p.0 + owned p.1) (take_runnable_tasks [] s)
  unfolding take_runnable_tasks
  take_runnable_tasks-owned s = omega arith

  pub obtain_ticket-owned :
      (refs : ℕ) (s : Scheduler Task)
      → Inv s
      → Ensures (λ p. owned s ≡ owned p.1) (obtain_ticket refs s)
  unfolding obtain_ticket
  obtain_ticket-owned refs s v =
      let k = s.next_ticket in
      let r : TicketRecord Task = record { ref_count = refs; was_resumed = false; task = none } in
      Ensures-check (λ (p : ℕ × Scheduler Task). owned s ≡ owned p.1) (not (refs == 0)) _
        (λ _.
          rw (emplace_last r 1 k s.tickets v.ordered)
            (omega (arith, held-append w s.tickets ((k, r) ∷ []))))
