-- ===== src/Futures/Executor/Resolution.antt =====
-- `resolve_ticket` against the invariant: a handle is given back, with or without the task's
-- resumption (bipolar/futures/single_threaded_executor.cpp).
use bipolar.Common.{
  ℕ, ◌+◌, ◌-◌, ◌≤◌, ◌<◌, ◌≡◌, ◌⊎◌, refl, ◌∙◌, inl, inr, Bool, true, false, not, if◌then◌else◌, List,
  [], ◌∷◌, none, arith, Bool-cases, ◌||◌, ◌&&◌,
}
use bipolar.Common.OrderedMap.{find}
use bipolar.Futures.Scheduler.{
  TicketRecord, Scheduler, is_empty, has_runnable_tasks, has_suspended_tasks,
  has_outstanding_tickets,
}
use bipolar.Futures.Scheduler.Lookup.{
  parked_idle, count_of, release_ticket-count, resume_task_with_ticket-count,
}
use bipolar.Futures.Executor.{
  After, nothing, notify, destroy, Dispatcher, use_ticket, after_resolve, resolve_ticket,
}
use bipolar.Futures.Executor.System.{
  Phase, outside, blocked, gone, draining, executing, System, signals, destroys,
}
use bipolar.Common.{put}
use bipolar.Futures.Executor.Balance.{
  IsBalanced, release_ticket-IsBalanced, resume_task_with_ticket-IsBalanced,
}
use bipolar.Futures.Executor.Inv.{Holds, IsConsistent}
use bipolar.Futures.Executor.Preserves.{Gives, rebase}

module _ {Task : Type 0} where
  -- What is left to do after a handle was given back, in each phase.
  abbrev Ready : Phase Task → Dispatcher Task → ℕ → Bool → Bool → Type 0
  Ready outside d n w x = Holds outside d n w x
  Ready (draining ts) d n w x = Holds (draining ts) d n w x
  Ready (executing t ts) d n w x = Holds (executing t ts) d n w x
  Ready blocked d n w x =
      (d.current_task_ticket ≡ 0)
      × (d.was_shutdown ≡ false)
      × (x ≡ false)
      × ((d.need_wake ≡ true) ⊎ (0 < n) ⊎ (w ≡ true))
  Ready gone d n w x =
      (d.current_task_ticket ≡ 0)
      × (d.was_shutdown ≡ true)
      × (d.need_wake ≡ false)
      × (d.scheduler.runnable_tasks ≡ [])
      × (d.scheduler.suspended_task_count ≡ 0)
      × (x ≡ false)

  abbrev Settled : Phase Task → ℕ → Bool → Bool → Dispatcher Task → After × Dispatcher Task → Type 0
  Settled p n w x d r =
      Holds p r.1 (n + signals r.0) w (x || destroys r.0)
      × (r.1.scheduler ≡ d.scheduler)
      × (r.1.current_task_ticket ≡ d.current_task_ticket)

  quiet :
      (p : Phase Task) (d : Dispatcher Task) (n : ℕ) (w x : Bool)
      → d.was_shutdown ≡ false
      → d.need_wake ≡ false
      → Holds p d (n + 0) w (x || false)
      → Gives (Settled p n w x d) (after_resolve d)
  unfolding after_resolve
  quiet p d n w x off calm h = record {
    result = (nothing, d);
    gives = ground arith;
    holds = (h, refl, refl);
  }

  after_resolve-Gives :
      (p : Phase Task) (d : Dispatcher Task) (n : ℕ) (w x : Bool)
      → Ready p d n w x
      → Gives (Settled p n w x d) (after_resolve d)
  unfolding after_resolve has_runnable_tasks has_suspended_tasks has_outstanding_tickets
  after_resolve-Gives outside d n w x h = quiet outside d n w x h.1 h.2 (ground arith)
  after_resolve-Gives (draining ts) d n w x h = quiet (draining ts) d n w x h.1 h.2 (ground arith)
  after_resolve-Gives (executing t ts) d n w x h =
      quiet (executing t ts) d n w x h.0 h.1 (ground arith)
  after_resolve-Gives blocked d n w x h =
      let q = d.scheduler in
      elim (Bool-cases (d.need_wake && (has_runnable_tasks q || not (has_suspended_tasks q)))) [
        | inl e ↦ record {
          result = (notify, record d { need_wake = false });
          gives = ground arith;
          holds = (ground arith, refl, refl);
        }
        | inr e ↦ record {
          result = (nothing, d);
          gives = ground arith;
          holds = ((h.0, h.1, ground arith, ground arith), refl, refl);
        }
      ]
  after_resolve-Gives gone d n w x h = record {
    result = (if not (is_empty d.scheduler.tickets) then nothing else destroy, d);
    gives = ground arith;
    holds = (ground arith, refl, refl);
  }

  -- A handle is given back, with or without the task's resumption.
  use_ticket-Gives :
      (c k : ℕ) (b : Bool) (q : Scheduler Task) (h : ℕ → ℕ)
      → IsBalanced c q h
      → 0 < h k
      → Gives
          (λ r.
            IsBalanced c r.1 (put h k (h k - 1))
            × (r.1.suspended_task_count ≤ q.suspended_task_count)
            × (q.runnable_tasks ≡ [] → q.suspended_task_count ≡ 0 → r.1.runnable_tasks ≡ []))
          (use_ticket k b q)
  unfolding use_ticket
  use_ticket-Gives c k true q h v p =
      let (did, q', done, v', queue) = resume_task_with_ticket-IsBalanced c k q h v p in
      record {
        result = (none, q');
        gives = rw done refl;
        holds = (
          v',
          resume_task_with_ticket-count q q' k did done,
          λ empty idle. queue ∙ ground (arith, parked_idle q k v.sound idle),
        );
      }
  use_ticket-Gives c k false q h v p =
      let (a, q', done, v', queue) = release_ticket-IsBalanced c k q h v p in
      record {
        result = (a, q');
        gives = done;
        holds = (v', release_ticket-count q q' k a done, λ empty idle. queue ∙ empty);
      }

  Holds-Ready :
      (p : Phase Task) (d d' : Dispatcher Task) (n : ℕ) (w x : Bool)
      → Holds p d n w x
      → is_empty d.scheduler.tickets ≡ false
      → (d'.current_task_ticket ≡ d.current_task_ticket)
        × (d'.was_shutdown ≡ d.was_shutdown)
        × (d'.need_wake ≡ d.need_wake)
      → d'.scheduler.suspended_task_count ≤ d.scheduler.suspended_task_count
      → (d.scheduler.runnable_tasks ≡ []
          → d.scheduler.suspended_task_count ≡ 0
          → d'.scheduler.runnable_tasks ≡ [])
      → Ready p d' n w x
  Holds-Ready outside d d' n w x h some_left same le idle = ground arith
  Holds-Ready (draining ts) d d' n w x h some_left same le idle = ground arith
  Holds-Ready (executing t ts) d d' n w x h some_left same le idle = ground arith
  Holds-Ready blocked d d' n w x h some_left same le idle = ground arith
  Holds-Ready gone d d' n w x h some_left same le idle = let empty = idle h.3 h.4 in ground arith

  pub listed :
      (k : ℕ) (m : List (ℕ × TicketRecord Task)) → 0 < count_of (find k m) → is_empty m ≡ false
  unfolding find
  listed k [] p = absurd (omega arith)
  listed k (e ∷ m) p = refl

  pub resolve-Gives :
      (s : System Task) (k : ℕ) (b : Bool)
      → IsConsistent s
      → 0 < s.handles k
      → Gives
          (λ r. IsConsistent (record s {
            dispatcher = r.2;
            handles = put s.handles k (s.handles k - 1);
            pending = s.pending + signals r.1;
            destroyed = s.destroyed || destroys r.1;
          }))
          (resolve_ticket k b s.dispatcher)
  unfolding resolve_ticket
  resolve-Gives s k b v p =
      let d = s.dispatcher in
      let c = d.current_task_ticket in
      let some_left = listed k d.scheduler.tickets (omega (arith, v.balance.counted k)) in
      let u = use_ticket-Gives c k b d.scheduler s.handles v.balance p in
      let (abandoned, q') = u.result in
      let (v', fewer, idle) = u.holds in
      let d1 : Dispatcher Task = record d { scheduler = q' } in
      let ready =
        Holds-Ready s.phase d d1 s.pending s.woken s.destroyed v.holds some_left (refl, refl, refl)
          fewer idle in
      let f = after_resolve-Gives s.phase d1 s.pending s.woken s.destroyed ready in
      let (a, d') = f.result in
      let (h', table, current) = f.holds in
      record {
        result = (abandoned, a, d');
        gives = rw u.gives (rw f.gives refl);
        holds = record {
          balance =
              rebase c d'.current_task_ticket q' d'.scheduler (put s.handles k (s.handles k - 1))
                current table v';
          holds = h';
        };
      }
