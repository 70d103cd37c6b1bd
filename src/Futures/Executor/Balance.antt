-- ===== src/Futures/Executor/Balance.antt =====
-- The ledger of the dispatcher (bipolar/futures/single_threaded_executor.cpp): each ticket counts the
-- handles to it and, for the ticket of the task that is called, the executor itself.
use bipolar.Common.{
  ◌++◌, opt_list, ℕ, ◌+◌, ◌-◌, ◌^◌, ◌<◌, ◌≡◌, ◌≢◌, refl, sym, ◌∙◌, ap, inl, inr, Bool, ◌==◌,
  if◌then◌else◌, List, [], ◌∷◌, Option, none, some, arith, Option-cases, ensured,
}
use bipolar.Common.OrderedMap.{find, find_below, find_above, length-Ordered}
use bipolar.Futures.Scheduler.{
  take_all_tasks, TicketRecord, Scheduler, obtain_ticket, duplicate_ticket, release_ticket,
  resume_task_with_ticket, finalize_ticket, take_all_tasks,
}
use bipolar.Futures.Scheduler.Invariant.{Inv}
use bipolar.Futures.Scheduler.Preservation.{
  obtain_ticket-Ensures, finalize_ticket-Ensures, duplicate_ticket-Ensures, release_ticket-Ensures,
  resume_task_with_ticket-Ensures,
}
use bipolar.Futures.Scheduler.Lookup.{
  count_of, task_of, refs, parked, obtain_ticket-find, duplicate_ticket-find, release_ticket-find,
  resume_task_with_ticket-find, finalize_ticket-refs,
}
use bipolar.Futures.Scheduler.Shutdown.{emptied, take_all_tasks_lem, take_all_tasks-Ensures}
use bipolar.Common.{put}

-- The references that the executor itself holds: one to the ticket of the task that it calls.
abbrev pub owner : ℕ → ℕ → ℕ
owner current k = if current == 0 then 0 else if k == current then 1 else 0

module _ {Task : Type 0} where
  -- No task waits with the ticket of the task that is called: that one is being called.
  pub record IsBalanced (current : ℕ) (s : Scheduler Task) (handles : ℕ → ℕ) : Type 0 where
    pub sound : Inv s
    pub counted : (k : ℕ) → refs k s ≡ handles k + owner current k
    pub unparked : parked current s ≡ none

  -- The run queue has no part in it.
  pub requeued :
      (c : ℕ) (s : Scheduler Task) (h : ℕ → ℕ) (ts : List Task)
      → IsBalanced c s h
      → IsBalanced c (record s { runnable_tasks = ts }) h
  requeued c s h ts v =
      let i = v.sound in
      record {
        sound = record {
          ordered = i.ordered;
          live = i.live;
          counted = i.counted;
          unwrapped = i.unwrapped;
        };
        counted = v.counted;
        unparked = v.unparked;
      }

  pub found :
      (k : ℕ) (s : Scheduler Task)
      → 0 < refs k s
      → (r : TicketRecord Task) × (find k s.tickets ≡ some r)
  found k s p = elim (Option-cases (find k s.tickets)) [
    | inl e ↦ absurd (omega (arith, ap count_of e))
    | inr (r, e) ↦ (r, e)
  ]

  pub refs-found :
      (k : ℕ) (s : Scheduler Task) (r : TicketRecord Task)
      → find k s.tickets ≡ some r
      → refs k s ≡ r.ref_count
  refs-found k s r e = ap count_of e

  pub obtain_ticket-IsBalanced :
      (s : Scheduler Task) (h : ℕ → ℕ)
      → IsBalanced 0 s h
      → s.next_ticket + 1 < 2 ^ 64
      → (s' : Scheduler Task) × (obtain_ticket 2 s ≡ some (s.next_ticket, s'))
        × (s.next_ticket ≢ 0)
        × IsBalanced s.next_ticket s' (put h s.next_ticket (h s.next_ticket + 1))
  obtain_ticket-IsBalanced s h v n =
      let n0 = s.next_ticket in
      let (s', e, f, same, same') = obtain_ticket-find s v.sound n in
      let low = length-Ordered 1 n0 s.tickets v.sound.ordered in
      let fresh = find_above n0 1 n0 s.tickets (omega arith) v.sound.ordered in
      let none_before = v.counted n0 in
      (
        s',
        e,
        omega arith,
        record {
          sound = ensured (λ p. Inv p.1) (obtain_ticket-Ensures 2 s v.sound (omega arith) n) e;
          counted = λ k. ground (arith, f k, v.counted k);
          unparked = ground (arith, f n0);
        },
      )

  pub duplicate_ticket-IsBalanced :
      (c t : ℕ) (s : Scheduler Task) (h : ℕ → ℕ)
      → IsBalanced c s h
      → 0 < refs t s
      → h t + 2 < 2 ^ 32
      → (s' : Scheduler Task) × (duplicate_ticket t s ≡ some s')
        × ((s'.runnable_tasks ≡ s.runnable_tasks)
            × (s'.suspended_task_count ≡ s.suspended_task_count))
        × IsBalanced c s' (put h t (h t + 1))
  duplicate_ticket-IsBalanced c t s h v p room =
      let (r, e) = found t s p in
      let bound : r.ref_count + 1 < 2 ^ 32 = ground (arith, v.counted t, refs-found t s r e) in
      let (s', done, f, same, same') = duplicate_ticket-find s t r v.sound e bound in
      let small : (r0 : TicketRecord Task)
          → find t s.tickets ≡ some r0
          → r0.ref_count + 1 < 2 ^ 32 =
        λ r0 e0. ground (arith, refs-found t s r0 e0, refs-found t s r e) in
      (
        s',
        done,
        (same, same'),
        record {
          sound = ensured Inv (duplicate_ticket-Ensures t s v.sound small) done;
          counted = λ k. ground (arith, f k, v.counted k, refs-found t s r e);
          unparked = ground (arith, f c, v.unparked);
        },
      )

  pub release_ticket-IsBalanced :
      (c t : ℕ) (s : Scheduler Task) (h : ℕ → ℕ)
      → IsBalanced c s h
      → 0 < h t
      → (a : Option Task) × (s' : Scheduler Task) × (release_ticket t s ≡ some (a, s'))
        × IsBalanced c s' (put h t (h t - 1))
        × (s'.runnable_tasks ≡ s.runnable_tasks)
  release_ticket-IsBalanced c t s h v p =
      let (r, e) = found t s (omega (arith, v.counted t)) in
      let (a, s', done, f, same) = release_ticket-find s t r v.sound e in
      (
        a,
        s',
        done,
        record {
          sound = ensured (λ p. Inv p.1) (release_ticket-Ensures t s v.sound) done;
          counted = λ k. ground (arith, f k, v.counted k, refs-found t s r e);
          unparked = ground (arith, f c, v.unparked);
        },
        same,
      )

  pub resume_task_with_ticket-IsBalanced :
      (c t : ℕ) (s : Scheduler Task) (h : ℕ → ℕ)
      → IsBalanced c s h
      → 0 < h t
      → (did : Bool) × (s' : Scheduler Task) × (resume_task_with_ticket t s ≡ some (did, s'))
        × IsBalanced c s' (put h t (h t - 1))
        × (s'.runnable_tasks ≡ s.runnable_tasks ++ opt_list (parked t s))
  resume_task_with_ticket-IsBalanced c t s h v p =
      let (r, e) = found t s (omega (arith, v.counted t)) in
      let (did, s', done, f, queue) = resume_task_with_ticket-find s t r v.sound e in
      (
        did,
        s',
        done,
        record {
          sound = ensured (λ p. Inv p.1) (resume_task_with_ticket-Ensures t s v.sound) done;
          counted = λ k. ground (arith, f k, v.counted k, refs-found t s r e);
          unparked = ground (arith, f c, v.unparked);
        },
        queue ∙ ap (λ x. s.runnable_tasks ++ opt_list (task_of x)) (sym e),
      )

  pub finalize_ticket-IsBalanced :
      (c : ℕ) (task : Option Task) (s : Scheduler Task) (h : ℕ → ℕ)
      → IsBalanced c s h
      → c ≢ 0
      → (left : Option Task) × (s' : Scheduler Task) × (finalize_ticket c task s ≡ some (left, s'))
        × IsBalanced 0 s' h
  finalize_ticket-IsBalanced c task s h v n =
      let (r, e) = found c s (ground (arith, v.counted c)) in
      let (left, s', done, f) =
        finalize_ticket-refs s c task r v.sound e (ap task_of (sym e) ∙ v.unparked) in
      let i = ensured (λ p. Inv p.1) (finalize_ticket-Ensures c task s v.sound) done in
      (
        left,
        s',
        done,
        record {
          sound = i;
          counted = λ k. ground (arith, f k, v.counted k, refs-found c s r e);
          unparked = ap task_of (find_below 0 1 s'.next_ticket s'.tickets (omega arith) i.ordered);
        },
      )

  find-emptied :
      (k : ℕ) (m : List (ℕ × TicketRecord Task))
      → count_of (find k (emptied m)) ≡ count_of (find k m)
  unfolding find
  find-emptied k [] = refl
  find-emptied k ((j, r) ∷ m) = ground (arith, find-emptied k m)

  taken_all :
      (s s' : Scheduler Task) (ts : List (Option Task))
      → Inv s
      → take_all_tasks [] s ≡ some (ts, s')
      → (s'.runnable_tasks ≡ []) × (s'.suspended_task_count ≡ 0) × ((k : ℕ) → refs k s' ≡ refs k s)
  taken_all s s' ts v e = (
    ground (arith, take_all_tasks_lem s v),
    ground (arith, take_all_tasks_lem s v, v.counted),
    λ k. ground (arith, take_all_tasks_lem s v, find-emptied k s.tickets),
  )

  pub take_all_tasks-IsBalanced :
      (s s' : Scheduler Task) (h : ℕ → ℕ) (ts : List (Option Task))
      → IsBalanced 0 s h
      → take_all_tasks [] s ≡ some (ts, s')
      → IsBalanced 0 s' h × (s'.runnable_tasks ≡ []) × (s'.suspended_task_count ≡ 0)
  take_all_tasks-IsBalanced s s' h ts v e =
      let i = ensured (λ p. Inv p.1) (take_all_tasks-Ensures s v.sound) e in
      let (empty, idle, same) = taken_all s s' ts v.sound e in
      (
        record {
          sound = i;
          counted = λ k. same k ∙ v.counted k;
          unparked = ap task_of (find_below 0 1 s'.next_ticket s'.tickets (omega arith) i.ordered);
        },
        empty,
        idle,
      )
