-- ===== src/Futures/Scheduler/Tickets.antt =====
-- The ticket table: the weight of the tasks that wait in it, and what a write or an erasure does.
use bipolar.Common.{
  ℕ, ◌+◌, ◌^◌, ◌≤◌, ◌<◌, ◌≡◌, true, false, List, [], ◌∷◌, ◌++◌, some, arith, length, weigh_opt,
}
use bipolar.Common.OrderedMap.{find, update, erase}
use bipolar.Futures.Scheduler.{TicketRecord, is_some}

module _ {Task : Type 0} where
  -- A ticket that is in the table is referenced, and a task waits there only unresumed.
  pub record IsLive (r : TicketRecord Task) : Type 0 where
    pub referenced : 0 < r.ref_count
    pub fits : r.ref_count < 2 ^ 32
    pub unresumed : is_some r.task ≡ true → r.was_resumed ≡ false

module _ {Task : Type 0} (w : Task → ℕ) where
  -- The weight of the tasks that wait in the table.
  abbrev pub held : List (ℕ × TicketRecord Task) → ℕ
  held [] = 0
  held ((k, r) ∷ m) = weigh_opt w r.task + held m

  pub held-append : (m n : List (ℕ × TicketRecord Task)) → held (m ++ n) ≡ held m + held n
  held-append [] n = omega arith
  held-append ((k, r) ∷ m) n = omega (arith, held-append m n)

  pub held-update :
      (k : ℕ) (r r' : TicketRecord Task) (m : List (ℕ × TicketRecord Task))
      → find k m ≡ some r
      → held (update k r' m) + weigh_opt w r.task ≡ held m + weigh_opt w r'.task
  unfolding find update
  held-update k r r' [] h = cc
  held-update k r r' ((j, q) ∷ m) h = ground (arith, held-update k r r' m)

  pub held-erase :
      (k : ℕ) (r : TicketRecord Task) (m : List (ℕ × TicketRecord Task))
      → find k m ≡ some r
      → held (erase k m) + weigh_opt w r.task ≡ held m
  unfolding find erase
  held-erase k r [] h = cc
  held-erase k r ((j, q) ∷ m) h = ground (arith, held-erase k r m)

module _ {Task : Type 0} where
  -- How many tasks wait in the table.
  abbrev pub waiting : List (ℕ × TicketRecord Task) → ℕ
  waiting = held (λ _. 1)

  pub waiting-le-length : (m : List (ℕ × TicketRecord Task)) → waiting m ≤ length m
  waiting-le-length [] = omega arith
  waiting-le-length ((k, r) ∷ m) = ground (arith, waiting-le-length m)

  pub waiting_of_find :
      (k : ℕ) (r : TicketRecord Task) (m : List (ℕ × TicketRecord Task))
      → find k m ≡ some r
      → is_some r.task ≡ true
      → 0 < waiting m
  unfolding find
  waiting_of_find k r [] h t = cc
  waiting_of_find k r ((j, q) ∷ m) h t = ground (arith, waiting_of_find k r m)
