-- ===== src/Futures/Scheduler/Invariant.antt =====
-- The invariant of the scheduler (bipolar/futures/scheduler.cpp), and that every operation keeps it.
use bipolar.Common.{
  ℕ, ◌+◌, ◌^◌, ◌<◌, ◌≡◌, true, false, ◌==◌, none, some, arith, weigh_opt, All, inl, inr, Bool-cases,
}
use bipolar.Common.OrderedMap.{
  find, update, erase, Ordered, update-Ordered, erase-Ordered, erase-update, update-All, erase-All,
  length-Ordered,
}
use bipolar.Futures.Scheduler.{TicketRecord, Scheduler, is_some, new, live, settle}
use bipolar.Futures.Scheduler.Tickets.{IsLive, held-update, held-erase, waiting, waiting-le-length}

module _ {Task : Type 0} where
  -- The tickets rise below `next_ticket`, which has not wrapped; each is live; and the counter of
  -- suspended tasks is the number of the tasks that wait in the table.
  pub record Inv (s : Scheduler Task) : Type 0 where
    pub ordered : Ordered 1 s.next_ticket s.tickets
    pub live : All (λ e. IsLive e.1) s.tickets
    pub counted : s.suspended_task_count ≡ waiting s.tickets
    pub unwrapped : s.next_ticket < 2 ^ 64

  pub new-Inv : Inv new
  unfolding new
  new-Inv = omega arith

  pub count-lt : (s : Scheduler Task) → Inv s → s.suspended_task_count < s.next_ticket
  count-lt s v =
      omega (arith, waiting-le-length s.tickets, length-Ordered 1 s.next_ticket s.tickets v.ordered)

  -- What an operation on one ticket has to show of the record that it writes: when the ticket goes,
  -- when it stays, and when that depends on the references left.
  pub erased-Inv :
      (k : ℕ) (r r' : TicketRecord Task) (s : Scheduler Task)
      → find k s.tickets ≡ some r
      → Ordered 1 s.next_ticket s.tickets
      → All (λ e. IsLive e.1) s.tickets
      → s.next_ticket < 2 ^ 64
      → s.suspended_task_count + weigh_opt (λ _. 1) r.task ≡ waiting s.tickets
      → Inv (record s { tickets = erase k (update k r' s.tickets) })
  erased-Inv k r r' s f o a n c =
      let m = s.tickets in
      rw (erase-update k r' m) (record {
        ordered = erase-Ordered k 1 s.next_ticket m o;
        live = erase-All IsLive k m a;
        counted = omega (arith, held-erase (λ _. 1) k r m f);
        unwrapped = n;
      })

  pub updated-Inv :
      (k : ℕ) (r r' : TicketRecord Task) (s : Scheduler Task)
      → find k s.tickets ≡ some r
      → Ordered 1 s.next_ticket s.tickets
      → All (λ e. IsLive e.1) s.tickets
      → s.next_ticket < 2 ^ 64
      → s.suspended_task_count + weigh_opt (λ _. 1) r.task
        ≡ waiting s.tickets + weigh_opt (λ _. 1) r'.task
      → IsLive r'
      → Inv (record s { tickets = update k r' s.tickets })
  updated-Inv k r r' s f o a n c l =
      let m = s.tickets in
      record {
        ordered = update-Ordered k r' 1 s.next_ticket m o;
        live = update-All IsLive k r' m l a;
        counted = omega (arith, held-update (λ _. 1) k r r' m f);
        unwrapped = n;
      }

  pub settle-Inv :
      (k : ℕ) (r r' : TicketRecord Task) (s : Scheduler Task)
      → find k s.tickets ≡ some r
      → Ordered 1 s.next_ticket s.tickets
      → All (λ e. IsLive e.1) s.tickets
      → s.next_ticket < 2 ^ 64
      → s.suspended_task_count + weigh_opt (λ _. 1) r.task
        ≡ waiting s.tickets + weigh_opt (λ _. 1) r'.task
      → r'.ref_count < 2 ^ 32
      → (is_some r'.task ≡ true → r'.was_resumed ≡ false)
      → (r'.ref_count ≡ 0 → r'.task ≡ none)
      → Inv (settle k r' s)
  unfolding settle
  settle-Inv k r r' s f o a n c b u z = elim (Bool-cases (r'.ref_count == 0)) [
    | inl e ↦ rw e (erased-Inv k r r' s f o a n (ground arith))
    | inr e ↦ rw e (
        updated-Inv k r r' s f o a n c
          (record { referenced = ground arith; fits = b; unresumed = u }))
  ]

  pub find_of_live :
      (t : ℕ) (s : Scheduler Task) {r : TicketRecord Task}
      → live t s ≡ some r
      → find t s.tickets ≡ some r
  unfolding live
  find_of_live t s e = ground arith
