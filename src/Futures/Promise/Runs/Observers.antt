-- ===== src/Futures/Promise/Runs/Observers.antt =====
-- `inspect` and `discard_result` (bipolar/futures/internal/adaptor.hpp) as runs.
use bipolar.Common.{
  ◌≡◌, ◌≢◌, refl, sym, ap, subst, ◌∙◌, true, false, Option, none, some, arith, ◌↔◌,
}
use bipolar.Common.Outcome.{Outcome, returns, throws, aborts, ◌>>=◌, >>=-eq-returns}
use bipolar.Core.Result.{Result, pending, ok, err, is_pending, to_bool}
use bipolar.Futures.Promise.{Continuation, call}
use bipolar.Futures.Promise.Observe.{inspect_run, discard_run}
use bipolar.Futures.Promise.Runs.{Runs, ends, waits}

-- `outer` calls a promise, and on its result, in the same call, `last`.
record Observes {C S T E U V : Type 0} (run : Continuation C S T E)
    (last : Result T E → C → Outcome (Result U V × C)) (outer : Continuation C (Option S) U V)
    : Type 0 where
  on_pending :
      (s s' : S) (c c' : C)
      → run s c ≡ returns (pending, s', c')
      → outer (some s) c ≡ returns (pending, some s', c')
  on_end :
      (s s' : S) (c c' : C) (r : Result T E)
      → run s c ≡ returns (r, s', c')
      → is_pending r ≡ false
      → outer (some s) c ≡ (last r c' >>= λ t. returns (t.0, none, t.1))
  on_fault :
      (s : S) (c : C)
      → ((r : Result T E) (s' : S) (c' : C) → run s c ≢ returns (r, s', c'))
      → (a : Result U V × Option S × C) → outer (some s) c ≢ returns a
  on_none : (c : C) (a : Result U V × Option S × C) → outer none c ≢ returns a

module _ {C S T E U V : Type 0} (run : Continuation C S T E)
    (last : Result T E → C → Outcome (Result U V × C)) (outer : Continuation C (Option S) U V)
    (law : Observes run last outer) where
  abbrev Observed : Result U V → C → S → C → Type 0
  Observed r' c2 s c =
      (r : Result T E) × (c1 : C) × Runs run r c1 s c
      × (last r c1 ≡ returns (r', c2))
      × (is_pending r' ≡ false)

  observe_sound :
      (r : Result T E) (r' : Result U V) (c1 c2 : C) {s : S} {c : C}
      → Runs run r c1 s c
      → last r c1 ≡ returns (r', c2)
      → is_pending r' ≡ false
      → Runs outer r' c2 (some s) c
  observe_sound r r' c1 c2 (ends {s} {s'} {c} e p) h q =
      ends {s' = none} (law.on_end s s' c c1 r e p ∙ rw h) q
  observe_sound r r' c1 c2 (waits {s} {s'} {c} {c1 = c0} e c3 rest) h q =
      waits {s' = some s'} (law.on_pending s s' c c0 e) c3 (observe_sound r r' c1 c2 rest h q)

  emptied :
      (r' : Result U V) (c2 : C) {st : Option S} {c : C} → Runs outer r' c2 st c → st ≡ none → ⊥
  emptied r' c2 (ends {s = st} {s' = st'} {c} e p) q = law.on_none c (r', st', c2) (rw (← q) e)
  emptied r' c2 (waits {s = st} {s' = st'} {c} {c1 = c0} e c3 rest) q =
      law.on_none c (pending, st', c0) (rw (← q) e)

  -- The call in which the promise ends.
  ended :
      (s s1 : S) (c c0 c1 : C) (r : Result T E) (r' : Result U V) (st' : Option S)
      → run s c ≡ returns (r, s1, c1)
      → is_pending r ≡ false
      → outer (some s) c ≡ returns (r', st', c0)
      → (last r c1 ≡ returns (r', c0)) × (st' ≡ none)
  ended s s1 c c0 c1 r r' st' q p e =
      let (t, h, e') = >>=-eq-returns (last r c1) _ (sym (law.on_end s s1 c c1 r q p) ∙ e) in
      (h ∙ ground arith, ground arith)

  ends-Observed :
      (r' : Result U V) (c2 : C) (s : S) (c : C) (st' : Option S)
      → outer (some s) c ≡ returns (r', st', c2)
      → is_pending r' ≡ false
      → (o : Outcome (Result T E × S × C)) → run s c ≡ o
      → Observed r' c2 s c
  unfolding is_pending
  ends-Observed r' c2 s c st' e p (returns (pending, s1, c1)) q =
      absurd (grind (arith, law.on_pending s s1 c c1 q))
  ends-Observed r' c2 s c st' e p (returns (ok x, s1, c1)) q =
      (ok x, c1, ends {s' = s1} q refl, (ended s s1 c c2 c1 (ok x) r' st' q refl e).0, p)
  ends-Observed r' c2 s c st' e p (returns (err x, s1, c1)) q =
      (err x, c1, ends {s' = s1} q refl, (ended s s1 c c2 c1 (err x) r' st' q refl e).0, p)
  ends-Observed r' c2 s c st' e p (throws m) q = absurd (law.on_fault s c (λ r s' c' h. cc) _ e)
  ends-Observed r' c2 s c st' e p aborts q = absurd (law.on_fault s c (λ r s' c' h. cc) _ e)

  waits-Observed :
      (r' : Result U V) (c2 : C) (s : S) (c c0 c3 : C) (st' : Option S)
      → outer (some s) c ≡ returns (pending, st', c0)
      → Runs outer r' c2 st' c3
      → ((s' : S) → st' ≡ some s' → Observed r' c2 s' c3)
      → (o : Outcome (Result T E × S × C)) → run s c ≡ o
      → Observed r' c2 s c
  unfolding is_pending
  waits-Observed r' c2 s c c0 c3 st' e rest rec (returns (pending, s1, c1)) q =
      let same : st' ≡ some s1 = cc (law.on_pending s s1 c c1 q) in
      let (r, c1', first, h, p) = rec s1 same in (r, c1', waits {s' = s1} q c3 first, h, p)
  waits-Observed r' c2 s c c0 c3 st' e rest rec (returns (ok x, s1, c1)) q =
      absurd (emptied r' c2 rest (ended s s1 c c0 c1 (ok x) pending st' q refl e).1)
  waits-Observed r' c2 s c c0 c3 st' e rest rec (returns (err x, s1, c1)) q =
      absurd (emptied r' c2 rest (ended s s1 c c0 c1 (err x) pending st' q refl e).1)
  waits-Observed r' c2 s c c0 c3 st' e rest rec (throws m) q =
      absurd (law.on_fault s c (λ r s' c' h. cc) _ e)
  waits-Observed r' c2 s c c0 c3 st' e rest rec aborts q =
      absurd (law.on_fault s c (λ r s' c' h. cc) _ e)

  observe_complete :
      (r' : Result U V) (c2 : C) (s : S) {st : Option S} {c : C}
      → Runs outer r' c2 st c
      → st ≡ some s
      → Observed r' c2 s c
  observe_complete r' c2 s (ends {s = st} {s' = st'} {c} e p) q =
      ends-Observed r' c2 s c st' (rw (← q) e) p (run s c) refl
  observe_complete r' c2 s (waits {s = st} {s' = st'} {c} {c1 = c0} e c3 rest) q =
      waits-Observed r' c2 s c c0 c3 st' (rw (← q) e) rest
        (λ s' q'. observe_complete r' c2 s' rest q') (run s c) refl

  observe_iff :
      (r' : Result U V) (c2 : C) (s : S) (c : C) → Runs outer r' c2 (some s) c ↔ Observed r' c2 s c
  observe_iff r' c2 s c =
      (λ h. observe_complete r' c2 s h refl, λ h. observe_sound h.0 r' h.1 c2 h.2 h.3 h.4)

module _ {C S T E : Type 0} (run : Continuation C S T E) where
  call_pending :
      (s s' : S) (c c' : C)
      → run s c ≡ returns (pending, s', c')
      → call run (some s) c ≡ returns (pending, some s', c')
  unfolding call is_pending
  call_pending s s' c c' e = rw e

  call_ended :
      (s s' : S) (c c' : C) (r : Result T E)
      → run s c ≡ returns (r, s', c')
      → is_pending r ≡ false
      → (call run (some s) c ≡ returns (r, none, c')) × (to_bool r ≡ true)
  unfolding call is_pending to_bool
  call_ended s s' c c' pending e p = absurd (cc)
  call_ended s s' c c' (ok x) e p = (rw e, refl)
  call_ended s s' c c' (err x) e p = (rw e, refl)

  call_fault :
      (s : S) (c : C)
      → ((r : Result T E) (s' : S) (c' : C) → run s c ≢ returns (r, s', c'))
      → (a : Result T E × Option S × C) → call run (some s) c ≢ returns a
  unfolding call
  call_fault s c never a e = let (b, h, _) = >>=-eq-returns (run s c) _ e in never b.0 b.1 b.2 h

  inspect-Observes :
      (inspector : Result T E → C → Outcome (Result T E × C))
      → Observes run inspector (inspect_run inspector run)
  unfolding inspect_run to_bool call
  inspect-Observes inspector = record {
    on_pending = λ s s' c c' e. rw (call_pending s s' c c' e);
    on_end = λ s s' c c' r e p. let (h, t) = call_ended s s' c c' r e p in rw (h, t);
    on_fault = λ s c never a e.
        let (b, h, _) = >>=-eq-returns (call run (some s) c) _ e in call_fault s c never b h;
    on_none = λ c a e. cc;
  }

  -- A promise with `inspect` ends with a result in a context exactly when the promise ends with a
  -- result on which the inspector, called once and then, leaves this one, which is not pending, and
  -- this context.
  pub inspect_iff :
      (inspector : Result T E → C → Outcome (Result T E × C)) (r' : Result T E) (c2 : C) (s : S)
      (c : C)
      → Runs (inspect_run inspector run) r' c2 (some s) c ↔ (
          (r : Result T E) × (c1 : C) × Runs run r c1 s c
          × (inspector r c1 ≡ returns (r', c2))
          × (is_pending r' ≡ false))
  inspect_iff inspector =
      observe_iff run inspector (inspect_run inspector run) (inspect-Observes inspector)

  discard-Observes : Observes run (λ r c. returns (ok tt, c)) (discard_run run)
  unfolding discard_run to_bool call
  discard-Observes = record {
    on_pending = λ s s' c c' e. rw (call_pending s s' c c' e);
    on_end = λ s s' c c' r e p. let (h, t) = call_ended s s' c c' r e p in rw (h, t);
    on_fault = λ s c never a e.
        let (b, h, _) = >>=-eq-returns (call run (some s) c) _ e in call_fault s c never b h;
    on_none = λ c a e. cc;
  }

  -- A promise with `discard_result` ends in a context exactly when the promise ends in it with some
  -- result, and then with a value, also on an error.
  pub discard_iff :
      (r' : Result (Unit {0}) (Unit {0})) (c2 : C) (s : S) (c : C)
      → Runs (discard_run run) r' c2 (some s) c
        ↔ ((r' ≡ ok tt) × ((r : Result T E) × Runs run r c2 s c))
  unfolding is_pending
  discard_iff r' c2 s c =
      let both =
        observe_iff run (λ r c. returns (ok tt, c)) (discard_run run) discard-Observes r' c2 s c in
      (
        λ h.
            let (r, c1, first, e, p) = both.0 h in
            let same : c1 ≡ c2 = ground arith in
            (ground arith, (r, subst (λ c'. Runs run r c' s c) same first)),
        λ h. both.1 (h.1.0, c2, h.1.1, ap (λ q. returns (q, c2)) (sym h.0), ap is_pending h.0),
      )
