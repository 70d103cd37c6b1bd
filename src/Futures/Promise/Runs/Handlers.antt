-- ===== src/Futures/Promise/Runs/Handlers.antt =====
-- A handler that returns a promise (bipolar/futures/internal/adaptor.hpp) is called once, and then
-- its promise runs.
use bipolar.Common.{◌≡◌, refl, sym, ◌∙◌, none, some, ◌↔◌}
use bipolar.Common.Outcome.{Outcome, returns, ◌>>=◌, >>=-eq-returns, >>=_assoc}
use bipolar.Core.Result.{Result}
use bipolar.Futures.Promise.{Continuation}
use bipolar.Futures.Promise.Adaptor.{Chained, chained}
use bipolar.Futures.Promise.Runs.{Runs, ends, waits}
use bipolar.Futures.Promise.Runs.Wrapping.{wrap_iff}

module _ {C S St T E : Type 0} (outer : Continuation C St T E) (wrap : S → St) (st : St) (c : C)
    (m : Outcome (S × C)) (first : outer st c ≡ (m >>= λ p. outer (wrap p.0) p.1)) where
  -- A first call that makes a step to another state and goes on there.
  prefix_sound :
      (r : Result T E) (c' : C)
      → Runs outer r c' st c
      → (p : S × C) × (m ≡ returns p) × Runs outer r c' (wrap p.0) p.1
  prefix_sound r c' (ends {s' = st'} e p) =
      let (q, h, e') = >>=-eq-returns m _ (sym first ∙ e) in (q, h, ends {s' = st'} e' p)
  prefix_sound r c' (waits {s' = st'} e c2 rest) =
      let (q, h, e') = >>=-eq-returns m _ (sym first ∙ e) in (q, h, waits {s' = st'} e' c2 rest)

  begin :
      (p : S × C) {a : Result T E × St × C}
      → m ≡ returns p
      → outer (wrap p.0) p.1 ≡ returns a
      → outer st c ≡ returns a
  begin p h e = first ∙ rw h e

  prefix_complete :
      (r : Result T E) (c' : C) (p : S × C) {w : St} {d : C}
      → m ≡ returns p
      → Runs outer r c' w d
      → w ≡ wrap p.0
      → d ≡ p.1
      → Runs outer r c' st c
  prefix_complete r c' p h (ends {s' = st'} e q) u v =
      ends {s' = st'} (begin p h (rw (← u, ← v) e)) q
  prefix_complete r c' p h (waits {s' = st'} {c1 = d1} e c2 rest) u v =
      waits {s' = st'} {c1 = d1} (begin p h (rw (← u, ← v) e)) c2 rest

module _ {C A S T E : Type 0} (run : Continuation C S T E) where
  abbrev pub fresh : (A → C → Outcome ((S × A) × C)) → Chained C A S
  fresh h = record { handler = some h; cont = none }

  abbrev pub running : S → Chained C A S
  running s = record { handler = none; cont = some s }

  -- The adaptor of a handler that returns a promise ends with a result in a context exactly when the
  -- handler, called once and first, returns a promise that ends so from there on.
  pub chained_iff :
      (h : A → C → Outcome ((S × A) × C)) (a : A) (r : Result T E) (c c' : C)
      → Runs (chained run) r c' (fresh h, a) c
        ↔ ((p : (S × A) × C) × (h a c ≡ returns p) × Runs run r c' p.0.0 p.1)
  unfolding chained
  chained_iff h a r c c' =
      let outer : Continuation C (Chained C A S × A) T E = chained run in
      let wrap : S × A → Chained C A S × A = λ p. (running p.0, p.1) in
      let first : outer (fresh h, a) c ≡ (h a c >>= λ p. outer (wrap p.0) p.1) =
        >>=_assoc (h a c) _ _ in
      let inside = λ (p : (S × A) × C).
        wrap_iff run outer (λ s. (running s, p.0.1)) (λ i c. refl) r c' p.0.0 p.1 in
      (
        λ runs.
            let (p, e, rest) = prefix_sound outer wrap (fresh h, a) c (h a c) first r c' runs in
            (p, e, (inside p).0 rest),
        λ parts.
            prefix_complete outer wrap (fresh h, a) c (h a c) first r c' parts.0 parts.1
              ((inside parts.0).1 parts.2) refl refl,
      )
