-- ===== src/Futures/Promise/Runs/Combinators.antt =====
-- `then`, `and_then` and `or_else` (bipolar/futures/internal/adaptor.hpp) as runs: the promise's run
-- first, then what its result calls for.
use bipolar.Common.{◌≡◌, refl, false, some, ◌↔◌}
use bipolar.Common.Outcome.{>>=-eq-returns}
use bipolar.Core.Result.{Result, pending, ok, err, is_pending, is_ok, value, error}
use bipolar.Futures.Promise.{Continuation}
use bipolar.Futures.Promise.Future.{
  nothing, waiting, ready, poll, result_ref, take_value, take_error, is_error,
  is_ok as future_is_ok,
}
use bipolar.Futures.Promise.Adaptor.{chain, Invoker, then_run, and_then_run, or_else_run}
use bipolar.Futures.Promise.Runs.{Runs, ends, waits}
use bipolar.Futures.Promise.Runs.Chaining.{
  Follows, chain_iff, poll_pending, poll_ended, poll_faults,
}
use bipolar.Futures.Promise.Runs.Wrapping.{wrap_iff, ends_iff}

module _ {C S I T E U V : Type 0} (run : Continuation C S T E)
    (invoke : Invoker C I (Result T E) U V) where
  then_run-Follows : Follows run (then_run run invoke)
  unfolding then_run result_ref
  then_run-Follows = record {
    on_pending = λ s s' i c c' e. rw (poll_pending run s s' c c' e);
    on_end = λ s s' i c c' r e p. rw (poll_ended run s s' c c' r e p);
    on_fault = λ s i c never r st c' e.
        let (a, h, _) = >>=-eq-returns (poll run (waiting (some s)) c) _ e in
        poll_faults run s c never a h;
  }

  then_ready :
      (r : Result T E) (r' : Result U V) (c2 : C) (i : I) (c : C)
      → Runs (then_run run invoke) r' c2 (chain (ready r) i) c ↔ Runs invoke r' c2 (i, r) c
  unfolding then_run result_ref
  then_ready r r' c2 i c =
      wrap_iff invoke (then_run run invoke) (λ (a : I × Result T E). chain (ready a.1) a.0)
        (λ a c. refl) r' c2 (i, r) c

  -- A promise with `then` ends with a result in a context exactly when the promise ends with some
  -- result and the handler's invoker, on that result and from that call on, ends so.
  pub then_iff :
      (r' : Result U V) (c2 : C) (s : S) (i : I) (c : C)
      → Runs (then_run run invoke) r' c2 (chain (waiting (some s)) i) c
        ↔ ((r : Result T E) × (c1 : C) × Runs run r c1 s c × Runs invoke r' c2 (i, r) c1)
  then_iff r' c2 s i c =
      let both = chain_iff run (then_run run invoke) then_run-Follows r' c2 s i c in
      (
        λ h.
            let (r, c1, first, last) = both.0 h in (r, c1, first, (then_ready r r' c2 i c1).0 last),
        λ h. both.1 (h.0, h.1, h.2, (then_ready h.0 r' c2 i h.1).1 h.3),
      )

module _ {C S T E : Type 0} (run : Continuation C S T E) where
  Runs-ended : (r : Result T E) (c' : C) {s : S} {c : C} → Runs run r c' s c → is_pending r ≡ false
  Runs-ended r c' (ends e p) = p
  Runs-ended r c' (waits e c2 rest) = Runs-ended r c' rest

module _ {C S I T E U : Type 0} (run : Continuation C S T E) (invoke : Invoker C I T U E) where
  -- What is left after the promise: the handler's invoker on a value, and nothing on an error.
  abbrev pub AfterValue : Result T E → Result U E → C → I → C → Type 0
  AfterValue pending r' c2 i c1 = ⊥
  AfterValue (ok x) r' c2 i c1 = Runs invoke r' c2 (i, x) c1
  AfterValue (err e) r' c2 i c1 = (r' ≡ err e) × (c2 ≡ c1)

  and_then_run-Follows : Follows run (and_then_run run invoke)
  unfolding and_then_run
  and_then_run-Follows = record {
    on_pending = λ s s' i c c' e. rw (poll_pending run s s' c c' e);
    on_end = λ s s' i c c' r e p. rw (poll_ended run s s' c c' r e p);
    on_fault = λ s i c never r st c' e.
        let (a, h, _) = >>=-eq-returns (poll run (waiting (some s)) c) _ e in
        poll_faults run s c never a h;
  }

  and_then_ready :
      (r : Result T E) (r' : Result U E) (c2 : C) (i : I) (c : C)
      → is_pending r ≡ false
      → Runs (and_then_run run invoke) r' c2 (chain (ready r) i) c ↔ AfterValue r r' c2 i c
  unfolding and_then_run result_ref value is_error take_error is_ok is_pending
  and_then_ready pending r' c2 i c p = absurd (cc)
  and_then_ready (ok x) r' c2 i c p =
      wrap_iff invoke (and_then_run run invoke) (λ (a : I × T). chain (ready (ok a.1)) a.0)
        (λ a c. refl) r' c2 (i, x) c
  and_then_ready (err e) r' c2 i c p =
      ends_iff (and_then_run run invoke) (chain (ready (err e)) i) (chain nothing i) c c (err e)
        refl refl r' c2

  -- A promise with `and_then` ends with a result in a context exactly when the promise ends with a
  -- value and the handler's invoker, on that value and from that call on, ends so; or when the
  -- promise ends with an error, which is then the result, in the same context.
  pub and_then_iff :
      (r' : Result U E) (c2 : C) (s : S) (i : I) (c : C)
      → Runs (and_then_run run invoke) r' c2 (chain (waiting (some s)) i) c
        ↔ ((r : Result T E) × (c1 : C) × Runs run r c1 s c × AfterValue r r' c2 i c1)
  and_then_iff r' c2 s i c =
      let both = chain_iff run (and_then_run run invoke) and_then_run-Follows r' c2 s i c in
      (
        λ h.
            let (r, c1, first, last) = both.0 h in
            (r, c1, first, (and_then_ready r r' c2 i c1 (Runs-ended run r c1 first)).0 last),
        λ h.
            both.1
              (h.0, h.1, h.2, (and_then_ready h.0 r' c2 i h.1 (Runs-ended run h.0 h.1 h.2)).1 h.3),
      )

module _ {C S I T E U : Type 0} (run : Continuation C S T E) (invoke : Invoker C I E T U) where
  -- What is left after the promise: the handler's invoker on an error, and nothing on a value.
  abbrev pub AfterError : Result T E → Result T U → C → I → C → Type 0
  AfterError pending r' c2 i c1 = ⊥
  AfterError (ok x) r' c2 i c1 = (r' ≡ ok x) × (c2 ≡ c1)
  AfterError (err e) r' c2 i c1 = Runs invoke r' c2 (i, e) c1

  or_else_run-Follows : Follows run (or_else_run run invoke)
  unfolding or_else_run
  or_else_run-Follows = record {
    on_pending = λ s s' i c c' e. rw (poll_pending run s s' c c' e);
    on_end = λ s s' i c c' r e p. rw (poll_ended run s s' c c' r e p);
    on_fault = λ s i c never r st c' e.
        let (a, h, _) = >>=-eq-returns (poll run (waiting (some s)) c) _ e in
        poll_faults run s c never a h;
  }

  or_else_ready :
      (r : Result T E) (r' : Result T U) (c2 : C) (i : I) (c : C)
      → is_pending r ≡ false
      → Runs (or_else_run run invoke) r' c2 (chain (ready r) i) c ↔ AfterError r r' c2 i c
  unfolding or_else_run result_ref error is_ok future_is_ok take_value is_pending
  or_else_ready pending r' c2 i c p = absurd (cc)
  or_else_ready (ok x) r' c2 i c p =
      ends_iff (or_else_run run invoke) (chain (ready (ok x)) i) (chain nothing i) c c (ok x) refl
        refl r' c2
  or_else_ready (err e) r' c2 i c p =
      wrap_iff invoke (or_else_run run invoke) (λ (a : I × E). chain (ready (err a.1)) a.0)
        (λ a c. refl) r' c2 (i, e) c

  -- A promise with `or_else` ends with a result in a context exactly when the promise ends with an
  -- error and the handler's invoker, on that error and from that call on, ends so; or when the
  -- promise ends with a value, which is then the result, in the same context.
  pub or_else_iff :
      (r' : Result T U) (c2 : C) (s : S) (i : I) (c : C)
      → Runs (or_else_run run invoke) r' c2 (chain (waiting (some s)) i) c
        ↔ ((r : Result T E) × (c1 : C) × Runs run r c1 s c × AfterError r r' c2 i c1)
  or_else_iff r' c2 s i c =
      let both = chain_iff run (or_else_run run invoke) or_else_run-Follows r' c2 s i c in
      (
        λ h.
            let (r, c1, first, last) = both.0 h in
            (r, c1, first, (or_else_ready r r' c2 i c1 (Runs-ended run r c1 first)).0 last),
        λ h.
            both.1
              (h.0, h.1, h.2, (or_else_ready h.0 r' c2 i h.1 (Runs-ended run h.0 h.1 h.2)).1 h.3),
      )
