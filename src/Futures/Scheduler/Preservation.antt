-- ===== src/Futures/Scheduler/Preservation.antt =====
-- Every operation of the scheduler (bipolar/futures/scheduler.cpp) keeps the invariant.
use bipolar.Common.{
  u32, u64, ℕ, ◌+◌, ◌-◌, ◌^◌, ◌<◌, ◌≡◌, refl, Bool, true, false, not, ◌==◌, List, [], ◌∷◌, Option,
  none, some, arith, All-append, inl, inr, Bool-cases, if_cases, if◌then◌else◌, ltb, Ensures,
  Ensures-bind, Ensures-check, ensured,
}
use native.Mathlib.Nat.{mod-eq_of_lt}
use native.Mathlib.Numerals.{add-one}
use bipolar.Common.OrderedMap.{find, emplace_last, snoc-Ordered, find-All}
use bipolar.Futures.Scheduler.{
  TicketRecord, Scheduler, abandon, resume, is_some, live, dispose, push, schedule_task,
  obtain_ticket, settle, finalize_ticket, duplicate_ticket, release_ticket, resume_task_with_ticket,
  take_runnable_tasks, is_empty,
}
use bipolar.Futures.Scheduler.Tickets.{IsLive, held-append}
use bipolar.Futures.Scheduler.Invariant.{
  Inv, count-lt, erased-Inv, updated-Inv, settle-Inv, find_of_live,
}

module _ {Task : Type 0} where
  pub schedule_task-Ensures :
      (task : Option Task) (s : Scheduler Task) → Inv s → Ensures Inv (schedule_task task s)
  unfolding schedule_task
  schedule_task-Ensures none s v = tt
  schedule_task-Ensures (some t) s v = record {
    ordered = v.ordered;
    live = v.live;
    counted = v.counted;
    unwrapped = v.unwrapped;
  }

  pub obtain_ticket-Ensures :
      (refs : ℕ) (s : Scheduler Task)
      → Inv s
      → refs < 2 ^ 32
      → s.next_ticket + 1 < 2 ^ 64
      → Ensures (λ p. Inv p.1) (obtain_ticket refs s)
  unfolding obtain_ticket
  obtain_ticket-Ensures refs s v h n =
      let k = s.next_ticket in
      let r : TicketRecord Task = record { ref_count = refs; was_resumed = false; task = none } in
      elim (Bool-cases (refs == 0)) [
        | inl z ↦ rw z tt
        | inr p ↦
            rw (p, emplace_last r 1 k s.tickets v.ordered, mod-eq_of_lt n)
              (record {
                ordered = rw add-one (snoc-Ordered r 1 k s.tickets v.ordered);
                live =
                    All-append (λ e. IsLive e.1) s.tickets ((k, r) ∷ []) v.live
                      (record { referenced = ground arith; fits = h; unresumed = λ e. cc }, tt);
                counted = omega (arith, held-append (λ _. 1) s.tickets ((k, r) ∷ []), v.counted);
                unwrapped = n;
              })
      ]

  -- The record that a method writes differs from `r` in the reference that it gives up.
  dispose-Inv :
      (t : ℕ) (task : Option Task) (r : TicketRecord Task) (s : Scheduler Task)
      → Inv s
      → find t s.tickets ≡ some r
      → r.task ≡ none
      → let d = dispose task (record r { ref_count = r.ref_count - 1 }) s in Inv (settle t d.1 d.2)
  unfolding dispose
  dispose-Inv t none r s v f e =
      let l = find-All IsLive t r s.tickets v.live f in
      settle-Inv t r _ s f v.ordered v.live v.unwrapped (ground arith) (omega (arith, l.fits))
        l.unresumed (λ _. e)
  dispose-Inv t (some x) r s v f e =
      let P : Option Task × TicketRecord Task × Scheduler Task → Type 0 =
        λ d. Inv (settle t d.1 d.2) in
      let l = find-All IsLive t r s.tickets v.live f in
      let r' : TicketRecord Task = record r { ref_count = r.ref_count - 1 } in
      if_cases P r.was_resumed
        (λ w.
          settle-Inv t r r' (push x s) f v.ordered v.live v.unwrapped (ground arith)
            (omega (arith, l.fits)) l.unresumed (λ _. e))
        (λ w.
          if_cases P (ltb 0 r'.ref_count)
            (λ more.
              settle-Inv t r (record r' { task = some x })
                (record s { suspended_task_count = u64 (s.suspended_task_count + 1) }) f v.ordered
                v.live v.unwrapped (ground (arith, count-lt s v)) (omega (arith, l.fits)) (λ _. w)
                (λ z. ground arith))
            (λ last.
              settle-Inv t r r' s f v.ordered v.live v.unwrapped (ground arith)
                (omega (arith, l.fits)) l.unresumed (λ _. e)))

  pub finalize_ticket-Ensures :
      (t : ℕ) (task : Option Task) (s : Scheduler Task)
      → Inv s
      → Ensures (λ p. Inv p.1) (finalize_ticket t task s)
  unfolding finalize_ticket
  finalize_ticket-Ensures t task s v =
      let P : Option Task × Scheduler Task → Type 0 = λ p. Inv p.1 in
      Ensures-bind P (live t s) _ (λ r e.
        Ensures-check P (not (is_some r.task)) _
          (λ empty. dispose-Inv t task r s v (find_of_live t s e) (ground arith)))

  pub duplicate_ticket-Ensures :
      (t : ℕ) (s : Scheduler Task)
      → Inv s
      → ((r : TicketRecord Task) → find t s.tickets ≡ some r → r.ref_count + 1 < 2 ^ 32)
      → Ensures Inv (duplicate_ticket t s)
  unfolding duplicate_ticket
  duplicate_ticket-Ensures t s v room = Ensures-bind Inv (live t s) _ (λ r e.
      let f = find_of_live t s e in
      let l = find-All IsLive t r s.tickets v.live f in
      let small = room r f in
      updated-Inv t r (record r { ref_count = u32 (r.ref_count + 1) }) s f v.ordered v.live
        v.unwrapped (omega (arith, v.counted))
        (record { referenced = omega arith; fits = omega arith; unresumed = l.unresumed }))

  pub abandon-Ensures :
      (t : ℕ) (o : Option Task) (r r' : TicketRecord Task) (s : Scheduler Task)
      → Inv s
      → find t s.tickets ≡ some r
      → r.task ≡ o
      → Ensures (λ p. Inv p.1) (abandon t o r' s)
  unfolding abandon
  abandon-Ensures t none r r' s v f e =
      erased-Inv t r r' s f v.ordered v.live v.unwrapped (ground arith)
  abandon-Ensures t (some x) r r' s v f e = elim (Bool-cases (ltb 0 s.suspended_task_count)) [
    | inl pos ↦ rw pos (
        erased-Inv t r (record r' { task = none })
          (record s { suspended_task_count = s.suspended_task_count - 1 }) f v.ordered v.live
          v.unwrapped (ground arith))
    | inr stop ↦ rw stop tt
  ]

  pub release_ticket-Ensures :
      (t : ℕ) (s : Scheduler Task) → Inv s → Ensures (λ p. Inv p.1) (release_ticket t s)
  unfolding release_ticket
  release_ticket-Ensures t s v =
      let P : Option Task × Scheduler Task → Type 0 = λ p. Inv p.1 in
      Ensures-bind P (live t s) _ (λ r e.
        let f = find_of_live t s e in
        let l = find-All IsLive t r s.tickets v.live f in
        let r' : TicketRecord Task = record r { ref_count = r.ref_count - 1 } in
        if_cases (Ensures P) (r'.ref_count == 0) (λ _. abandon-Ensures t r.task r r' s v f refl)
          (λ more.
            updated-Inv t r r' s f v.ordered v.live v.unwrapped (omega (arith, v.counted)) (record {
              referenced = ground arith;
              fits = omega (arith, l.fits);
              unresumed = l.unresumed;
            })))

  pub resume-Ensures :
      (t : ℕ) (o : Option Task) (r r' : TicketRecord Task) (s : Scheduler Task)
      → Inv s
      → find t s.tickets ≡ some r
      → r.task ≡ o
      → r'.task ≡ o
      → r'.ref_count < 2 ^ 32
      → Ensures (λ p. Inv (settle t p.1 p.2)) (resume o r' s)
  unfolding resume
  resume-Ensures t none r r' s v f e e' b =
      settle-Inv t r (record r' { was_resumed = true }) s f v.ordered v.live v.unwrapped
        (ground arith) b (ground arith) (λ _. e')
  resume-Ensures t (some x) r r' s v f e e' b = elim (Bool-cases (ltb 0 s.suspended_task_count)) [
    | inl pos ↦ rw pos (
        settle-Inv t r (record r' { was_resumed = true; task = none })
          (push x (record s { suspended_task_count = s.suspended_task_count - 1 })) f v.ordered
          v.live v.unwrapped (ground arith) b (λ h. cc) (λ _. refl))
    | inr stop ↦ rw stop tt
  ]

  pub resume_task_with_ticket-Ensures :
      (t : ℕ) (s : Scheduler Task) → Inv s → Ensures (λ p. Inv p.1) (resume_task_with_ticket t s)
  unfolding resume_task_with_ticket
  resume_task_with_ticket-Ensures t s v =
      let P : Bool × Scheduler Task → Type 0 = λ p. Inv p.1 in
      let Q : Bool × TicketRecord Task × Scheduler Task → Type 0 = λ p. Inv (settle t p.1 p.2) in
      Ensures-bind P (live t s) _ (λ r e.
        let f = find_of_live t s e in
        let l = find-All IsLive t r s.tickets v.live f in
        let r' : TicketRecord Task = record r { ref_count = r.ref_count - 1 } in
        Ensures-bind P (if r'.was_resumed then some (false, r', s) else resume r'.task r' s) _
          (λ p h.
            ensured Q
              (if_cases (Ensures Q) r'.was_resumed
                (λ w.
                  settle-Inv t r r' s f v.ordered v.live v.unwrapped (omega (arith, v.counted))
                    (omega (arith, l.fits)) l.unresumed (λ _. ground (arith, l)))
                (λ w. resume-Ensures t r.task r r' s v f refl refl (omega (arith, l.fits))))
              h))

  pub take_runnable_tasks-Ensures :
      (tasks : List Task) (s : Scheduler Task)
      → Inv s
      → Ensures (λ p. Inv p.1) (take_runnable_tasks tasks s)
  unfolding take_runnable_tasks
  take_runnable_tasks-Ensures tasks s v =
      Ensures-check (λ (p : List Task × Scheduler Task). Inv p.1) (is_empty tasks) _
        (λ _. record {
          ordered = v.ordered;
          live = v.live;
          counted = v.counted;
          unwrapped = v.unwrapped;
        })
