-- ===== src/Futures/Scheduler/Once.antt =====
-- A ticket resumes a task at most once, over every history of the scheduler
-- (bipolar/futures/scheduler.cpp).
use bipolar.Common.{
  u64, ℕ, ◌+◌, ◌-◌, ◌^◌, ◌<◌, ◌≡◌, refl, Bool, true, false, not, ltb, ◌==◌, if◌then◌else◌, List, [],
  ◌∷◌, Option, none, some, arith, length, Ensures, Ensures-bind, Ensures-check, ensured, if_cases,
  inl, inr, Bool-cases, Option-cases,
}
use native.Mathlib.Nat.{mod-eq_of_lt}
use bipolar.Common.OrderedMap.{
  find, update, erase, Ordered, erase-update, find-update, find-erase, find-snoc, find_above,
  emplace_last, find-All,
}
use bipolar.Futures.Scheduler.{
  TicketRecord, Scheduler, is_some, is_empty, live, settle, dispose, push, schedule_task,
  obtain_ticket, finalize_ticket, duplicate_ticket, release_ticket, abandon, drop_suspended, resume,
  resume_task_with_ticket, take_runnable_tasks, take_all_tasks,
}
use bipolar.Futures.Scheduler.Tickets.{IsLive, waiting}
use bipolar.Futures.Scheduler.Invariant.{Inv, find_of_live}
use bipolar.Futures.Scheduler.Shutdown.{emptied, take_all_tasks_lem}
use bipolar.Futures.Scheduler.Preservation.{resume_task_with_ticket-Ensures}
use bipolar.Futures.Scheduler.Reachability.{
  Step, schedule, obtain, finalize, duplicate, release, take_runnable, take_all, Reach, here, next,
  Step-Inv, Reach_keeps-Inv,
}
use bipolar.Futures.Scheduler.Reachability as histories
use bipolar.Futures.Scheduler.Resumption.{resume_idle}

module _ {Task : Type 0} (t : ℕ) where
  -- The ticket is marked as resumed, if it is still there.
  Marked : List (ℕ × TicketRecord Task) → Type 0
  Marked m = (r : TicketRecord Task) → find t m ≡ some r → r.was_resumed ≡ true

  update-Marked :
      (k : ℕ) (r r' : TicketRecord Task) (m : List (ℕ × TicketRecord Task))
      → find k m ≡ some r
      → (r.was_resumed ≡ true → r'.was_resumed ≡ true)
      → Marked m
      → Marked (update k r' m)
  unfolding Marked
  update-Marked k r r' m f keeps h u e =
      let found = find-update t k r' r m f in
      elim (Bool-cases (t == k)) [
        | inl same ↦ ground (arith, found, keeps, h r)
        | inr other ↦ h u (ground (arith, found))
      ]

  erase-Marked :
      (k lo hi : ℕ) (m : List (ℕ × TicketRecord Task))
      → Ordered lo hi m
      → Marked m
      → Marked (erase k m)
  unfolding Marked
  erase-Marked k lo hi m o h u e =
      let found = find-erase t k lo hi m o in
      elim (Bool-cases (t == k)) [
        | inl same ↦ absurd (ground (arith, found))
        | inr other ↦ h u (ground (arith, found))
      ]

  emptied-Marked : (m : List (ℕ × TicketRecord Task)) → Marked m → Marked (emptied m)
  unfolding Marked find
  emptied-Marked [] h u e = absurd cc
  emptied-Marked ((k, r) ∷ m) h u e = elim (Bool-cases (k == t)) [
    | inl same ↦ ground (arith, h r)
    | inr other ↦ emptied-Marked m (λ w f. h w (ground (arith, f))) u (ground arith)
  ]

  -- The ticket was obtained, and is marked.
  record IsUsed (s : Scheduler Task) : Type 0 where
    obtained : t < s.next_ticket
    marked : Marked s.tickets

  settle-IsUsed :
      (k : ℕ) (r r' : TicketRecord Task) (s : Scheduler Task)
      → Ordered 1 s.next_ticket s.tickets
      → find k s.tickets ≡ some r
      → (r.was_resumed ≡ true → r'.was_resumed ≡ true)
      → IsUsed s
      → IsUsed (settle k r' s)
  unfolding settle
  settle-IsUsed k r r' s o f keeps h = record {
    obtained = h.obtained;
    marked = elim (Bool-cases (r'.ref_count == 0)) [
      | inl z ↦
          rw (z, erase-update k r' s.tickets) (erase-Marked k 1 s.next_ticket s.tickets o h.marked)
      | inr z ↦ rw z (update-Marked k r r' s.tickets f keeps h.marked)
    ];
  }

  schedule_task-IsUsed :
      (task : Option Task) (s : Scheduler Task) → IsUsed s → Ensures IsUsed (schedule_task task s)
  unfolding schedule_task
  schedule_task-IsUsed none s h = tt
  schedule_task-IsUsed (some x) s h = record { obtained = h.obtained; marked = h.marked }

  obtain_ticket-IsUsed :
      (refs : ℕ) (s : Scheduler Task)
      → Inv s
      → s.next_ticket + 1 < 2 ^ 64
      → IsUsed s
      → Ensures (λ p. IsUsed p.1) (obtain_ticket refs s)
  unfolding obtain_ticket Marked
  obtain_ticket-IsUsed refs s v n h =
      let k = s.next_ticket in
      let r : TicketRecord Task = record { ref_count = refs; was_resumed = false; task = none } in
      let fresh = find_above k 1 k s.tickets (omega arith) v.ordered in
      let found = find-snoc t k r s.tickets fresh in
      elim (Bool-cases (refs == 0)) [
        | inl z ↦ rw z tt
        | inr p ↦
            rw (p, emplace_last r 1 k s.tickets v.ordered, mod-eq_of_lt n)
              (record {
                obtained = omega (arith, h.obtained);
                marked = λ u e. h.marked u (ground (arith, found, h.obtained));
              })
      ]

  dispose-IsUsed :
      (k : ℕ) (task : Option Task) (r : TicketRecord Task) (s : Scheduler Task)
      → Inv s
      → find k s.tickets ≡ some r
      → IsUsed s
      → let d = dispose task (record r { ref_count = r.ref_count - 1 }) s in
        IsUsed (settle k d.1 d.2)
  unfolding dispose
  dispose-IsUsed k none r s v f h =
      settle-IsUsed k r (record r { ref_count = r.ref_count - 1 }) s v.ordered f (λ w. w) h
  dispose-IsUsed k (some x) r s v f h =
      let P : Option Task × TicketRecord Task × Scheduler Task → Type 0 =
        λ d. IsUsed (settle k d.1 d.2) in
      let r' : TicketRecord Task = record r { ref_count = r.ref_count - 1 } in
      if_cases P r.was_resumed
        (λ w.
          settle-IsUsed k r r' (push x s) v.ordered f (λ w. w)
            (record { obtained = h.obtained; marked = h.marked }))
        (λ w.
          if_cases P (ltb 0 r'.ref_count)
            (λ more.
              settle-IsUsed k r (record r' { task = some x })
                (record s { suspended_task_count = u64 (s.suspended_task_count + 1) }) v.ordered f
                (λ w. w) (record { obtained = h.obtained; marked = h.marked }))
            (λ last. settle-IsUsed k r r' s v.ordered f (λ w. w) h))

  finalize_ticket-IsUsed :
      (k : ℕ) (task : Option Task) (s : Scheduler Task)
      → Inv s
      → IsUsed s
      → Ensures (λ p. IsUsed p.1) (finalize_ticket k task s)
  unfolding finalize_ticket
  finalize_ticket-IsUsed k task s v h =
      let P : Option Task × Scheduler Task → Type 0 = λ p. IsUsed p.1 in
      Ensures-bind P (live k s) _ (λ r e.
        Ensures-check P (not (is_some r.task)) _
          (λ empty. dispose-IsUsed k task r s v (find_of_live k s e) h))

  duplicate_ticket-IsUsed :
      (k : ℕ) (s : Scheduler Task) → IsUsed s → Ensures IsUsed (duplicate_ticket k s)
  unfolding duplicate_ticket
  duplicate_ticket-IsUsed k s h = Ensures-bind IsUsed (live k s) _ (λ r e. record {
    obtained = h.obtained;
    marked = update-Marked k r _ s.tickets (find_of_live k s e) (λ w. w) h.marked;
  })

  abandon-IsUsed :
      (k : ℕ) (o : Option Task) (r : TicketRecord Task) (s : Scheduler Task)
      → Inv s
      → IsUsed s
      → Ensures (λ p. IsUsed p.1) (abandon k o r s)
  unfolding abandon drop_suspended
  abandon-IsUsed k none r s v h = record {
    obtained = h.obtained;
    marked =
        rw (erase-update k r s.tickets)
          (erase-Marked k 1 s.next_ticket s.tickets v.ordered h.marked);
  }
  abandon-IsUsed k (some x) r s v h = elim (Bool-cases (ltb 0 s.suspended_task_count)) [
    | inl pos ↦ rw pos (record {
      obtained = h.obtained;
      marked =
          rw (erase-update k (record r { task = none }) s.tickets)
            (erase-Marked k 1 s.next_ticket s.tickets v.ordered h.marked);
    })
    | inr stop ↦ rw stop tt
  ]

  release_ticket-IsUsed :
      (k : ℕ) (s : Scheduler Task)
      → Inv s
      → IsUsed s
      → Ensures (λ p. IsUsed p.1) (release_ticket k s)
  unfolding release_ticket
  release_ticket-IsUsed k s v h =
      let P : Option Task × Scheduler Task → Type 0 = λ p. IsUsed p.1 in
      Ensures-bind P (live k s) _ (λ r e.
        let r' : TicketRecord Task = record r { ref_count = r.ref_count - 1 } in
        if_cases (Ensures P) (r'.ref_count == 0) (λ _. abandon-IsUsed k r.task r' s v h)
          (λ more. record {
            obtained = h.obtained;
            marked = update-Marked k r r' s.tickets (find_of_live k s e) (λ w. w) h.marked;
          }))

  resume-IsUsed :
      (k : ℕ) (o : Option Task) (r r' : TicketRecord Task) (s : Scheduler Task)
      → Inv s
      → find k s.tickets ≡ some r
      → IsUsed s
      → Ensures (λ p. IsUsed (settle k p.1 p.2)) (resume o r' s)
  unfolding resume drop_suspended
  resume-IsUsed k none r r' s v f h = settle-IsUsed k r _ s v.ordered f (λ w. refl) h
  resume-IsUsed k (some x) r r' s v f h = elim (Bool-cases (ltb 0 s.suspended_task_count)) [
    | inl pos ↦ rw pos (
        settle-IsUsed k r _
          (push x (record s { suspended_task_count = s.suspended_task_count - 1 })) v.ordered f
          (λ w. refl) (record { obtained = h.obtained; marked = h.marked }))
    | inr stop ↦ rw stop tt
  ]

  -- The steps of `resume_task_with_ticket`, for any property of the state that it leaves.
  resume_task_with_ticket-IsUsed :
      (k : ℕ) (s : Scheduler Task)
      → Inv s
      → IsUsed s
      → Ensures (λ p. IsUsed p.1) (resume_task_with_ticket k s)
  unfolding resume_task_with_ticket
  resume_task_with_ticket-IsUsed k s v h =
      let P : Bool × Scheduler Task → Type 0 = λ p. IsUsed p.1 in
      let Q : Bool × TicketRecord Task × Scheduler Task → Type 0 = λ p. IsUsed (settle k p.1 p.2) in
      Ensures-bind P (live k s) _ (λ r e.
        let f = find_of_live k s e in
        let r' : TicketRecord Task = record r { ref_count = r.ref_count - 1 } in
        Ensures-bind P (if r'.was_resumed then some (false, r', s) else resume r'.task r' s) _
          (λ p d.
            ensured Q
              (if_cases (Ensures Q) r'.was_resumed
                (λ w. settle-IsUsed k r r' s v.ordered f (λ _. w) h)
                (λ w. resume-IsUsed k r.task r r' s v f h))
              d))

  below_next :
      (r : TicketRecord Task) (s : Scheduler Task)
      → Inv s
      → find t s.tickets ≡ some r
      → t < s.next_ticket
  below_next r s v f = elim (Bool-cases (ltb t s.next_ticket)) [
    | inl e ↦ ground arith
    | inr e ↦
        absurd (ground (arith, f, find_above t 1 s.next_ticket s.tickets (ground arith) v.ordered))
  ]

  own-IsUsed :
      (r r' : TicketRecord Task) (s : Scheduler Task)
      → Ordered 1 s.next_ticket s.tickets
      → t < s.next_ticket
      → find t s.tickets ≡ some r
      → r'.was_resumed ≡ true
      → IsUsed (settle t r' s)
  unfolding settle Marked
  own-IsUsed r r' s o lt f w = record {
    obtained = lt;
    marked = elim (Bool-cases (r'.ref_count == 0)) [
      | inl z ↦
          rw (z, erase-update t r' s.tickets)
            (λ u e. absurd (ground (arith, find-erase t t 1 s.next_ticket s.tickets o)))
      | inr z ↦ rw z (λ u e. ground (arith, find-update t t r' r s.tickets f))
    ];
  }

  own_resume :
      (o : Option Task) (r r' : TicketRecord Task) (s : Scheduler Task)
      → Inv s
      → find t s.tickets ≡ some r
      → Ensures (λ p. IsUsed (settle t p.1 p.2)) (resume o r' s)
  unfolding resume drop_suspended
  own_resume none r r' s v f =
      own-IsUsed r (record r' { was_resumed = true }) s v.ordered (below_next r s v f) f refl
  own_resume (some x) r r' s v f = elim (Bool-cases (ltb 0 s.suspended_task_count)) [
    | inl pos ↦ rw pos (
        own-IsUsed r (record r' { was_resumed = true; task = none })
          (push x (record s { suspended_task_count = s.suspended_task_count - 1 })) v.ordered
          (below_next r s v f) f refl)
    | inr stop ↦ rw stop tt
  ]

  -- Whatever the state of the ticket was, it is used after a resumption with it.
  resumed-IsUsed :
      (s : Scheduler Task) → Inv s → Ensures (λ p. IsUsed p.1) (resume_task_with_ticket t s)
  unfolding resume_task_with_ticket
  resumed-IsUsed s v =
      let P : Bool × Scheduler Task → Type 0 = λ p. IsUsed p.1 in
      let Q : Bool × TicketRecord Task × Scheduler Task → Type 0 = λ p. IsUsed (settle t p.1 p.2) in
      Ensures-bind P (live t s) _ (λ r e.
        let f = find_of_live t s e in
        let r' : TicketRecord Task = record r { ref_count = r.ref_count - 1 } in
        Ensures-bind P (if r'.was_resumed then some (false, r', s) else resume r'.task r' s) _
          (λ p d.
            ensured Q
              (if_cases (Ensures Q) r'.was_resumed
                (λ w. own-IsUsed r r' s v.ordered (below_next r s v f) f w)
                (λ w. own_resume r.task r r' s v f))
              d))

  take_runnable_tasks-IsUsed :
      (tasks : List Task) (s : Scheduler Task)
      → IsUsed s
      → Ensures (λ p. IsUsed p.1) (take_runnable_tasks tasks s)
  unfolding take_runnable_tasks
  take_runnable_tasks-IsUsed tasks s h =
      Ensures-check (λ (p : List Task × Scheduler Task). IsUsed p.1) (is_empty tasks) _
        (λ _. record { obtained = h.obtained; marked = h.marked })

  take_all_tasks-IsUsed :
      (s : Scheduler Task) → Inv s → IsUsed s → Ensures (λ p. IsUsed p.1) (take_all_tasks [] s)
  take_all_tasks-IsUsed s v h =
      let P : List (Option Task) × Scheduler Task → Type 0 = λ p. IsUsed p.1 in
      rw (take_all_tasks_lem s v) (
        if_cases (Ensures P) (ltb 0 (waiting s.tickets))
          (λ _.
            if_cases (Ensures P) (ltb (waiting s.tickets) (length s.tickets)) (λ _. tt)
              (λ _. record { obtained = h.obtained; marked = emptied-Marked s.tickets h.marked }))
          (λ _. record { obtained = h.obtained; marked = h.marked }))

  Step-IsUsed : (s s' : Scheduler Task) → Inv s → IsUsed s → Step s s' → IsUsed s'
  Step-IsUsed s s' v h (schedule task e) = ensured IsUsed (schedule_task-IsUsed task s h) e
  Step-IsUsed s s' v h (obtain refs k b n e) =
      ensured (λ p. IsUsed p.1) (obtain_ticket-IsUsed refs s v n h) e
  Step-IsUsed s s' v h (finalize k task left e) =
      ensured (λ p. IsUsed p.1) (finalize_ticket-IsUsed k task s v h) e
  Step-IsUsed s s' v h (duplicate k room e) = ensured IsUsed (duplicate_ticket-IsUsed k s h) e
  Step-IsUsed s s' v h (release k left e) =
      ensured (λ p. IsUsed p.1) (release_ticket-IsUsed k s v h) e
  Step-IsUsed s s' v h (histories.resume k did e) =
      ensured (λ p. IsUsed p.1) (resume_task_with_ticket-IsUsed k s v h) e
  Step-IsUsed s s' v h (take_runnable tasks e) =
      ensured (λ p. IsUsed p.1) (take_runnable_tasks-IsUsed [] s h) e
  Step-IsUsed s s' v h (take_all tasks e) =
      ensured (λ p. IsUsed p.1) (take_all_tasks-IsUsed s v h) e

  Reach-IsUsed : {s s' : Scheduler Task} → Inv s → IsUsed s → Reach s s' → IsUsed s'
  Reach-IsUsed v h here = h
  Reach-IsUsed v h (next {t = a} {u = b} past step) =
      Step-IsUsed a b (Reach_keeps-Inv v past) (Reach-IsUsed v h past) step

unparked : {Task : Type 0} (r : TicketRecord Task) → IsLive r → r.was_resumed ≡ true → r.task ≡ none
unparked r l marked = elim (Option-cases r.task) [
  | inl e ↦ e
  | inr (x, e) ↦ absurd (ground (arith, l.unresumed, e))
]

-- A ticket resumes a task at most once. In a state that satisfies the invariant, let
-- `resume_task_with_ticket` return, whether it found the task suspended or its run not ended yet, and
-- let any history of further calls follow. Then another resumption with the ticket, if it is still
-- there, passes its assertions, reports that nothing was resumed, and changes neither the run queue
-- nor the count of suspended tasks.
pub resume_once :
    {Task : Type 0} (t : ℕ) (b : Bool) (r : TicketRecord Task) (s s' s'' : Scheduler Task)
    → Inv s
    → resume_task_with_ticket t s ≡ some (b, s')
    → Reach s' s''
    → find t s''.tickets ≡ some r
    → (s''' : Scheduler Task) × (resume_task_with_ticket t s'' ≡ some (false, s'''))
      × (s'''.runnable_tasks ≡ s''.runnable_tasks)
      × (s'''.suspended_task_count ≡ s''.suspended_task_count)
unfolding Marked
resume_once t b r s s' s'' v e past f =
    let v' = ensured (λ p. Inv p.1) (resume_task_with_ticket-Ensures t s v) e in
    let used = ensured (λ p. IsUsed t p.1) (resumed-IsUsed t s v) e in
    let v'' = Reach_keeps-Inv v' past in
    let marked = (Reach-IsUsed t v' used past).marked r f in
    let live_ticket = find-All IsLive t r s''.tickets v''.live f in
    let idle = unparked r live_ticket marked in
    let (s''', again, queue, counted, _) = resume_idle t r s'' v'' f idle in
    (s''', again, queue, counted)
