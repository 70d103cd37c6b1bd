-- ===== src/Futures/Executor/Preserves.antt =====
-- Each step of the executor's thread (bipolar/futures/single_threaded_executor.cpp) against the
-- invariant: a task that is called passes the assertions.
use bipolar.Common.{
  ℕ, ◌+◌, ◌^◌, ◌<◌, ◌≡◌, ◌⊎◌, refl, sym, ◌∙◌, ap, subst, inl, inr, Bool, true, false, not, ◌==◌,
  List, [], ◌∷◌, Option, some, arith, Bool-cases, ensured, Ensures,
}
use bipolar.Core.Result.{same}
use bipolar.Futures.Scheduler.{Scheduler, is_some}
use bipolar.Futures.Executor.{
  Dispatcher, Round, wait_round, woken_round, suspend_current_task, end_task, begin_task,
}
use bipolar.Futures.Executor.System.{
  Phase, outside, blocked, draining, executing, System, round_phase, round_system,
}
use bipolar.Common.{put}
use bipolar.Futures.Executor.Balance.{
  IsBalanced, requeued, obtain_ticket-IsBalanced, duplicate_ticket-IsBalanced,
  finalize_ticket-IsBalanced,
}
use bipolar.Futures.Executor.Inv.{Holds, IsConsistent, round-Holds, round_keeps}

-- A computation that passes its assertions, and what holds of its result.
pub record Gives {ℓ κ} {A : Type ℓ} (P : A → Type κ) (m : Option A) : Type (ℓ ⊔ κ) where
  pub result : A
  pub gives : m ≡ some result
  pub holds : P result

pub given {ℓ κ} :
    {A : Type ℓ} {P : A → Type κ} {m : Option A} {a : A} → Gives P m → m ≡ some a → P a
given {P = P} g e = ensured P (subst (Ensures P) (sym g.gives) g.holds) e

module _ {Task : Type 0} where
  pub at :
      {p : Phase Task} (s : System Task)
      → IsConsistent s
      → s.phase ≡ p
      → Holds p s.dispatcher s.pending s.woken s.destroyed
  at s v e = subst (λ p. Holds p s.dispatcher s.pending s.woken s.destroyed) e v.holds

  pub rebase :
      (c c' : ℕ) (s s' : Scheduler Task) (h : ℕ → ℕ)
      → c' ≡ c
      → s' ≡ s
      → IsBalanced c s h
      → IsBalanced c' s' h
  rebase c c' s s' h e e' v = rw (e, e') v

  -- The rounds of the wait: `d` is the dispatcher without a request to be woken.
  round-IsConsistent :
      (s : System Task) (r : Round Task) (d' : Dispatcher Task)
      → IsConsistent s
      → s.dispatcher.current_task_ticket ≡ 0
      → s.destroyed ≡ false
      → woken_round s.dispatcher ≡ some (r, d')
      → IsConsistent (round_system r d' s)
  unfolding woken_round
  round-IsConsistent s r d' v c x e =
      let d = s.dispatcher in
      let q = d.scheduler in
      let (table, current) = round_keeps (record d { need_wake = false }) d' r c e in
      record {
        balance =
            rebase d.current_task_ticket d'.current_task_ticket (record q { runnable_tasks = [] })
              d'.scheduler s.handles (current ∙ sym c) table
              (requeued d.current_task_ticket q s.handles [] v.balance);
        holds =
            subst (λ x. Holds (round_phase r) d' s.pending false x) (sym x)
              (round-Holds (record d { need_wake = false }) d' r s.pending c refl e);
      }

  unasked : (d : Dispatcher Task) → d.need_wake ≡ false → wait_round d ≡ woken_round d
  unfolding woken_round
  unasked d e = ap (λ b. wait_round (record d { need_wake = b })) e

  calling :
      (s : System Task) (d : Dispatcher Task) (t : Task) (ts : List Task)
      → s.phase ≡ executing t ts
      → (d.was_shutdown ≡ false) × (d.need_wake ≡ false) × (s.destroyed ≡ false)
      → Holds s.phase d s.pending s.woken s.destroyed
  calling s d t ts ph h = subst (λ p. Holds p d s.pending s.woken s.destroyed) (sym ph) h

  pub suspend-Gives :
      (s : System Task) (t : Task) (ts : List Task)
      → IsConsistent s
      → s.phase ≡ executing t ts
      → s.dispatcher.scheduler.next_ticket + 1 < 2 ^ 64
      → s.handles s.dispatcher.current_task_ticket + 2 < 2 ^ 32
      → Gives
          (λ r.
            IsConsistent
              (record s { dispatcher = r.1; handles = put s.handles r.0 (s.handles r.0 + 1) }))
          (suspend_current_task s.dispatcher)
  unfolding suspend_current_task
  suspend-Gives s t ts v ph room room' =
      let d = s.dispatcher in
      let c = d.current_task_ticket in
      let q = d.scheduler in
      let h = at s v ph in
      elim (Bool-cases (c == 0)) [
        | inl e ↦
            let zero_c : 0 ≡ c = ground arith in
            let (q', done, used, b) =
              obtain_ticket-IsBalanced q s.handles (rebase c 0 q q s.handles zero_c refl v.balance)
                room in
            let d' : Dispatcher Task = record d {
              current_task_ticket = q.next_ticket;
              scheduler = q';
            } in
            record {
              result = (q.next_ticket, d');
              gives = ground arith;
              holds = record { balance = b; holds = calling s d' t ts ph (h.0, h.1, h.2) };
            }
        | inr e ↦
            let (q', done, same, b) =
              duplicate_ticket-IsBalanced c c q s.handles v.balance
                (ground (arith, v.balance.counted c)) room' in
            let d' : Dispatcher Task = record d { scheduler = q' } in
            record {
              result = (c, d');
              gives = ground arith;
              holds = record { balance = b; holds = calling s d' t ts ph (h.0, h.1, h.2) };
            }
      ]

  pub end-Gives :
      (s : System Task) (t : Task) (ts : List Task) (finished : Bool) (task : Option Task)
      → IsConsistent s
      → s.phase ≡ executing t ts
      → same (not (is_some task)) finished ≡ true
      → Gives
          (λ r. IsConsistent (record s { dispatcher = r.1; phase = draining ts }))
          (end_task finished task s.dispatcher)
  unfolding end_task
  end-Gives s t ts finished task v ph told =
      let d = s.dispatcher in
      let c = d.current_task_ticket in
      let q = d.scheduler in
      let h = at s v ph in
      elim (Bool-cases (c == 0)) [
        | inl e ↦ record {
          result = (task, d);
          gives = ground arith;
          holds = record { balance = v.balance; holds = (ground arith, h.0, h.1, h.2) };
        }
        | inr e ↦
            let (left, q', done, b) =
              finalize_ticket-IsBalanced c task q s.handles v.balance (ground arith) in
            let d' : Dispatcher Task = record d { current_task_ticket = 0; scheduler = q' } in
            record {
              result = (left, d');
              gives = ground arith;
              holds = record { balance = b; holds = (refl, h.0, h.1, h.2) };
            }
      ]

  -- A task that ended has passed the first assertion.
  pub end_told :
      (finished : Bool) (task left : Option Task) (d d' : Dispatcher Task)
      → end_task finished task d ≡ some (left, d')
      → same (not (is_some task)) finished ≡ true
  unfolding end_task
  end_told finished task left d d' e = elim (Bool-cases (same (not (is_some task)) finished)) [
    | inl told ↦ told
    | inr told ↦ absurd (ground arith)
  ]

  pub begin-Gives :
      (s : System Task) (t : Task) (ts : List Task)
      → IsConsistent s
      → s.phase ≡ draining (t ∷ ts)
      → Gives (λ _. IsConsistent (record s { phase = executing t ts })) (begin_task s.dispatcher)
  unfolding begin_task
  begin-Gives s t ts v ph =
      let h = at s v ph in
      record {
        result = tt;
        gives = ground arith;
        holds = record { balance = v.balance; holds = (h.1, h.2, h.3) };
      }

  -- The rounds from each phase.
  pub run-IsConsistent :
      (s : System Task) (r : Round Task) (d : Dispatcher Task)
      → IsConsistent s
      → (s.phase ≡ outside) ⊎ (s.phase ≡ draining [])
      → wait_round s.dispatcher ≡ some (r, d)
      → IsConsistent (round_system r d s)
  run-IsConsistent s r d v (inl ph) e =
      let h = at s v ph in round-IsConsistent s r d v h.0 h.3 (sym (unasked s.dispatcher h.2) ∙ e)
  run-IsConsistent s r d v (inr ph) e =
      let h = at s v ph in round-IsConsistent s r d v h.0 h.3 (sym (unasked s.dispatcher h.2) ∙ e)

  pub wake-IsConsistent :
      (s : System Task) (r : Round Task) (d : Dispatcher Task)
      → IsConsistent s
      → s.phase ≡ blocked
      → woken_round s.dispatcher ≡ some (r, d)
      → IsConsistent (round_system r d s)
  wake-IsConsistent s r d v ph e = let h = at s v ph in round-IsConsistent s r d v h.0 h.2 e
