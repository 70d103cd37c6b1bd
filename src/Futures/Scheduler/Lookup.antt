-- ===== src/Futures/Scheduler/Lookup.antt =====
-- What each operation of the scheduler (bipolar/futures/scheduler.cpp) that the dispatcher calls does to
-- the references and the task of every ticket, and that it passes its assertions.
use bipolar.Common.{
  ℕ, ◌+◌, ◌-◌, ◌^◌, ◌<◌, ◌≤◌, ◌≡◌, refl, ap, ◌∙◌, Bool, true, false, ◌==◌, ltb, if◌then◌else◌, ◌++◌,
  Option, none, some, arith, opt_list, inl, inr, Bool-cases, weigh_opt, Option-cases,
}
use mathlib.Core.List.{append-nil}
use bipolar.Common.OrderedMap.{
  find, update, erase, emplace_last, find-update, find-erase, find-snoc, find_above, find-All,
  erase-update,
}
use bipolar.Futures.Scheduler.{
  TicketRecord, Scheduler, obtain_ticket, duplicate_ticket, release_ticket, resume_task_with_ticket,
  finalize_ticket, dispose, settle, push, live, abandon, drop_suspended, resume,
}
use bipolar.Futures.Scheduler.Invariant.{Inv}
use bipolar.Futures.Scheduler.Tickets.{IsLive, waiting_of_find}
use bipolar.Futures.Scheduler.Resumption.{release_ticket_lem}

module _ {Task : Type 0} where
  -- The references of an entry of the table, and its task.
  abbrev pub count_of : Option (TicketRecord Task) → ℕ
  count_of none = 0
  count_of (some r) = r.ref_count

  abbrev pub task_of : Option (TicketRecord Task) → Option Task
  task_of none = none
  task_of (some r) = r.task

  abbrev pub refs : ℕ → Scheduler Task → ℕ
  refs k s = count_of (find k s.tickets)

  abbrev pub parked : ℕ → Scheduler Task → Option Task
  parked k s = task_of (find k s.tickets)

  pub obtain_ticket-find :
      (s : Scheduler Task)
      → Inv s
      → s.next_ticket + 1 < 2 ^ 64
      → (s' : Scheduler Task) × (obtain_ticket 2 s ≡ some (s.next_ticket, s'))
        × ((k : ℕ)
            → find k s'.tickets ≡ (
                if k == s.next_ticket
                then some (record { ref_count = 2; was_resumed = false; task = none })
                else find k s.tickets))
        × (s'.runnable_tasks ≡ s.runnable_tasks)
        × (s'.suspended_task_count ≡ s.suspended_task_count)
  unfolding obtain_ticket
  obtain_ticket-find s v n =
      let r : TicketRecord Task = record { ref_count = 2; was_resumed = false; task = none } in
      let n0 = s.next_ticket in
      (
        _,
        refl,
        λ k.
            ap (find k) (emplace_last r 1 n0 s.tickets v.ordered)
            ∙ find-snoc k n0 r s.tickets (find_above n0 1 n0 s.tickets (omega arith) v.ordered),
        refl,
        refl,
      )

  pub duplicate_ticket-find :
      (s : Scheduler Task) (t : ℕ) (r : TicketRecord Task)
      → Inv s
      → find t s.tickets ≡ some r
      → r.ref_count + 1 < 2 ^ 32
      → (s' : Scheduler Task) × (duplicate_ticket t s ≡ some s')
        × ((k : ℕ)
            → find k s'.tickets ≡ (
                if k == t
                then some (record r { ref_count = r.ref_count + 1 })
                else find k s.tickets))
        × (s'.runnable_tasks ≡ s.runnable_tasks)
        × (s'.suspended_task_count ≡ s.suspended_task_count)
  unfolding duplicate_ticket
  duplicate_ticket-find s t r v f room =
      let l = find-All IsLive t r s.tickets v.live f in
      let r' : TicketRecord Task = record r { ref_count = r.ref_count + 1 } in
      (
        record s { tickets = update t r' s.tickets },
        ground (arith, l.referenced),
        λ k. find-update k t r' r s.tickets f,
        refl,
        refl,
      )

  -- What `release_ticket` and `resume_task_with_ticket` leave of an entry.
  abbrev pub left : TicketRecord Task → TicketRecord Task → Option (TicketRecord Task)
  left r r' = if r.ref_count == 1 then none else some r'

  pub release_ticket-find :
      (s : Scheduler Task) (t : ℕ) (r : TicketRecord Task)
      → Inv s
      → find t s.tickets ≡ some r
      → (a : Option Task) × (s' : Scheduler Task) × (release_ticket t s ≡ some (a, s'))
        × ((k : ℕ)
            → find k s'.tickets ≡ (
                if k == t
                then left r (record r { ref_count = r.ref_count - 1 })
                else find k s.tickets))
        × (s'.runnable_tasks ≡ s.runnable_tasks)
  release_ticket-find s t r v f =
      let r' : TicketRecord Task = record r { ref_count = r.ref_count - 1 } in
      elim (Bool-cases (r.ref_count == 1)) [
        | inl e ↦ (
          r.task,
          record s {
            tickets = erase t s.tickets;
            suspended_task_count = s.suspended_task_count - weigh_opt (λ _. 1) r.task;
          },
          release_ticket_lem t r s v f ∙ rw e,
          λ k. ground (arith, find-erase k t 1 s.next_ticket s.tickets v.ordered),
          refl,
        )
        | inr e ↦ (
          none,
          record s { tickets = update t r' s.tickets },
          release_ticket_lem t r s v f ∙ rw e,
          λ k. ground (arith, find-update k t r' r s.tickets f),
          refl,
        )
      ]

  settle-find :
      (t : ℕ) (r r' : TicketRecord Task) (s : Scheduler Task)
      → Inv s
      → find t s.tickets ≡ some r
      → (k : ℕ)
      → find k (settle t r' s).tickets
        ≡ (if k == t then if r'.ref_count == 0 then none else some r' else find k s.tickets)
  unfolding settle
  settle-find t r r' s v f k = ground (
    arith,
    erase-update t r' s.tickets,
    find-update k t r' r s.tickets,
    find-erase k t 1 s.next_ticket s.tickets v.ordered,
  )

  pub resume_task_with_ticket-find :
      (s : Scheduler Task) (t : ℕ) (r : TicketRecord Task)
      → Inv s
      → find t s.tickets ≡ some r
      → (did : Bool) × (s' : Scheduler Task) × (resume_task_with_ticket t s ≡ some (did, s'))
        × ((k : ℕ)
            → find k s'.tickets ≡ (
                if k == t
                then left r
                    (record { ref_count = r.ref_count - 1; was_resumed = true; task = none })
                else find k s.tickets))
        × (s'.runnable_tasks ≡ s.runnable_tasks ++ opt_list r.task)
  unfolding resume_task_with_ticket
  resume_task_with_ticket-find s t r v f =
      let r' : TicketRecord Task = record {
        ref_count = r.ref_count - 1;
        was_resumed = true;
        task = none;
      } in
      let counted = s.suspended_task_count - 1 in
      let facts = find-All IsLive t r s.tickets v.live f in
      let where_now = settle-find t r r' s v f in
      elim (Option-cases r.task) [
        | inl e ↦ (
          false,
          settle t r' s,
          ground (arith, facts),
          λ k. ground (arith, facts, where_now k),
          ground (arith, append-nil s.runnable_tasks),
        )
        | inr (x, e) ↦
            let busy = waiting_of_find t r s.tickets f (ground arith) in
            (
              true,
              settle t r' (push x (record s { suspended_task_count = counted })),
              ground (arith, facts, busy),
              λ k. ground (arith, facts, where_now k),
              ground arith,
            )
      ]

  dispose-ref_count :
      (task : Option Task) (r : TicketRecord Task) (s : Scheduler Task)
      → ((dispose task r s).1.ref_count ≡ r.ref_count) × ((dispose task r s).2.tickets ≡ s.tickets)
  unfolding dispose
  dispose-ref_count none r s = (refl, refl)
  dispose-ref_count (some x) r s = elim (Bool-cases r.was_resumed) [
    | inl e ↦ rw e (refl, refl)
    | inr e ↦ elim (Bool-cases (ltb 0 r.ref_count)) [
      | inl e' ↦ rw (e, e') (refl, refl)
      | inr e' ↦ rw (e, e') (refl, refl)
    ]
  ]

  settle-refs :
      (t : ℕ) (r r' : TicketRecord Task) (s s2 : Scheduler Task)
      → Inv s
      → find t s.tickets ≡ some r
      → s2.tickets ≡ s.tickets
      → (k : ℕ) → refs k (settle t r' s2) ≡ (if k == t then r'.ref_count else refs k s)
  unfolding settle
  settle-refs t r r' s s2 v f e k = rw e (
      ground (
        arith,
        erase-update t r' s.tickets,
        find-update k t r' r s.tickets,
        find-erase k t 1 s.next_ticket s.tickets v.ordered,
      ))

  pub finalize_ticket-refs :
      (s : Scheduler Task) (t : ℕ) (task : Option Task) (r : TicketRecord Task)
      → Inv s
      → find t s.tickets ≡ some r
      → r.task ≡ none
      → (left : Option Task) × (s' : Scheduler Task) × (finalize_ticket t task s ≡ some (left, s'))
        × ((k : ℕ) → refs k s' ≡ (if k == t then r.ref_count - 1 else refs k s))
  unfolding finalize_ticket live
  finalize_ticket-refs s t task r v f e =
      let l = find-All IsLive t r s.tickets v.live f in
      let r' : TicketRecord Task = record r { ref_count = r.ref_count - 1 } in
      let d = dispose task r' s in
      let (same, table) = dispose-ref_count task r' s in
      (
        d.0,
        settle t d.1 d.2,
        ground (arith, l.referenced),
        λ k. settle-refs t r d.1 s d.2 v f table k ∙ rw same,
      )

  -- Neither way to give a handle back adds to the suspended tasks.
  pub release_ticket-count :
      (s s' : Scheduler Task) (t : ℕ) (a : Option Task)
      → release_ticket t s ≡ some (a, s')
      → s'.suspended_task_count ≤ s.suspended_task_count
  unfolding release_ticket live abandon drop_suspended
  release_ticket-count s s' t a e = ground arith

  pub resume_task_with_ticket-count :
      (s s' : Scheduler Task) (t : ℕ) (did : Bool)
      → resume_task_with_ticket t s ≡ some (did, s')
      → s'.suspended_task_count ≤ s.suspended_task_count
  unfolding resume_task_with_ticket live resume drop_suspended settle push
  resume_task_with_ticket-count s s' t did e = ground arith

  pub parked_idle :
      (s : Scheduler Task) (t : ℕ) → Inv s → s.suspended_task_count ≡ 0 → parked t s ≡ none
  parked_idle s t v e = elim (Option-cases (find t s.tickets)) [
    | inl f ↦ ap task_of f
    | inr (r, f) ↦ ap task_of f ∙ elim (Option-cases r.task) [
      | inl g ↦ g
      | inr (x, g) ↦
          absurd (omega (arith, waiting_of_find t r s.tickets f (ground arith), v.counted))
    ]
  ]
