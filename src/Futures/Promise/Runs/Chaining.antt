-- ===== src/Futures/Promise/Runs/Chaining.antt =====
-- A continuation that first calls a future to its end (bipolar/futures/internal/adaptor.hpp), as
-- `then`, `and_then` and `or_else` do: its run is a run of the promise and then the rest.
use bipolar.Common.{◌≡◌, refl, sym, ◌∙◌, Bool, true, false, some, arith, ◌↔◌, ◌≢◌}
use bipolar.Common.Outcome.{Outcome, returns, throws, aborts}
use bipolar.Core.Result.{Result, pending, ok, err, is_pending, to_bool}
use bipolar.Futures.Promise.{Continuation}
use bipolar.Futures.Promise.Future.{Future, waiting, ready, poll}
use bipolar.Futures.Promise.Adaptor.{Chain, chain}
use bipolar.Futures.Promise.Runs.{Runs, ends, waits}

module _ {C S T E : Type 0} (run : Continuation C S T E) where
  -- One call of a future that waits, by what the promise's continuation does.
  pub poll_pending :
      (s s' : S) (c c' : C)
      → run s c ≡ returns (pending, s', c')
      → poll run (waiting (some s)) c ≡ returns (false, waiting (some s'), c')
  unfolding poll is_pending to_bool
  poll_pending s s' c c' e = rw e

  pub poll_ended :
      (s s' : S) (c c' : C) (r : Result T E)
      → run s c ≡ returns (r, s', c')
      → is_pending r ≡ false
      → poll run (waiting (some s)) c ≡ returns (true, ready r, c')
  unfolding poll is_pending to_bool
  poll_ended s s' c c' pending e h = cc
  poll_ended s s' c c' (ok x) e h = rw e
  poll_ended s s' c c' (err x) e h = rw e

  -- Where the continuation throws or aborts, so does the future.
  pub poll_faults :
      (s : S) (c : C)
      → ((r : Result T E) (s' : S) (c' : C) → run s c ≢ returns (r, s', c'))
      → (a : Bool × Future S T E × C) → poll run (waiting (some s)) c ≢ returns a
  unfolding poll
  poll_faults s c never a e = go (run s c) refl
    where
      go : (o : Outcome (Result T E × S × C)) → run s c ≡ o → ⊥
      go (returns (r, s', c')) q = never r s' c' q
      go (throws m) q = ground arith
      go aborts q = ground arith

module _ {C S I T E U V : Type 0} where
  -- `step` calls the promise of its future first, and goes on in the same call when that ends.
  pub record Follows (run : Continuation C S T E) (step : Continuation C (Chain S I T E) U V)
      : Type 0 where
    pub on_pending :
        (s s' : S) (i : I) (c c' : C)
        → run s c ≡ returns (pending, s', c')
        → step (chain (waiting (some s)) i) c ≡ returns (pending, chain (waiting (some s')) i, c')
    pub on_end :
        (s s' : S) (i : I) (c c' : C) (r : Result T E)
        → run s c ≡ returns (r, s', c')
        → is_pending r ≡ false
        → step (chain (waiting (some s)) i) c ≡ step (chain (ready r) i) c'
    pub on_fault :
        (s : S) (i : I) (c : C)
        → ((r : Result T E) (s' : S) (c' : C) → run s c ≢ returns (r, s', c'))
        → (r : Result U V) (st : Chain S I T E) (c' : C)
        → step (chain (waiting (some s)) i) c ≢ returns (r, st, c')

module _ {C S I T E U V : Type 0} (run : Continuation C S T E)
    (step : Continuation C (Chain S I T E) U V) (follows : Follows run step) where
  chain_sound :
      (r : Result T E) (r' : Result U V) (c1 c2 : C) (i : I) {s : S} {c : C}
      → Runs run r c1 s c
      → Runs step r' c2 (chain (ready r) i) c1
      → Runs step r' c2 (chain (waiting (some s)) i) c
  chain_sound r r' c1 c2 i (ends {s} {s'} {c} e p) (ends {s' = t} e' p') =
      ends {s' = t} (follows.on_end s s' i c c1 r e p ∙ e') p'
  chain_sound r r' c1 c2 i (ends {s} {s'} {c} e p) (waits {s' = t} e' c3 rest) =
      waits {s' = t} (follows.on_end s s' i c c1 r e p ∙ e') c3 rest
  chain_sound r r' c1 c2 i (waits {s} {s'} {c} {c1 = c0} e c3 rest) h =
      waits {s' = chain (waiting (some s')) i} (follows.on_pending s s' i c c0 e) c3
        (chain_sound r r' c1 c2 i rest h)

  -- The two parts of a run from the state `s` and the context `c`.
  abbrev pub Parts : Result U V → C → I → S → C → Type 0
  Parts r' c2 i s c =
      (r : Result T E) × (c1 : C) × Runs run r c1 s c × Runs step r' c2 (chain (ready r) i) c1

  no_return :
      (s : S) (i : I) (c : C) {r' : Result U V} {st' : Chain S I T E} {c' : C} {A : Type 0}
      → step (chain (waiting (some s)) i) c ≡ returns (r', st', c')
      → ((r : Result T E) (s' : S) (c' : C) → run s c ≢ returns (r, s', c'))
      → A
  no_return s i c {r'} {st'} {c'} e never = absurd (follows.on_fault s i c never r' st' c' e)

  -- By what the promise's continuation does in the first call, which ends the run or does not.
  ends-Parts :
      (r' : Result U V) (c2 : C) (i : I) (s : S) (c : C) {st' : Chain S I T E}
      → step (chain (waiting (some s)) i) c ≡ returns (r', st', c2)
      → is_pending r' ≡ false
      → (o : Outcome (Result T E × S × C)) → run s c ≡ o
      → Parts r' c2 i s c
  unfolding is_pending
  ends-Parts r' c2 i s c e p (returns (pending, s1, c1)) q =
      absurd (grind (arith, follows.on_pending s s1 i c c1 q))
  ends-Parts r' c2 i s c {st'} e p (returns (ok x, s1, c1)) q = (
    ok x,
    c1,
    ends {s' = s1} q refl,
    ends {s' = st'} (sym (follows.on_end s s1 i c c1 (ok x) q refl) ∙ e) p,
  )
  ends-Parts r' c2 i s c {st'} e p (returns (err x, s1, c1)) q = (
    err x,
    c1,
    ends {s' = s1} q refl,
    ends {s' = st'} (sym (follows.on_end s s1 i c c1 (err x) q refl) ∙ e) p,
  )
  ends-Parts r' c2 i s c e p (throws m) q = no_return s i c e (λ r s' c' h. cc)
  ends-Parts r' c2 i s c e p aborts q = no_return s i c e (λ r s' c' h. cc)

  waits-Parts :
      (r' : Result U V) (c2 : C) (i : I) (s : S) (c c0 c3 : C) {st' : Chain S I T E}
      → step (chain (waiting (some s)) i) c ≡ returns (pending, st', c0)
      → Runs step r' c2 st' c3
      → ((s' : S) → st' ≡ chain (waiting (some s')) i → Parts r' c2 i s' c3)
      → (o : Outcome (Result T E × S × C)) → run s c ≡ o
      → Parts r' c2 i s c
  unfolding is_pending
  waits-Parts r' c2 i s c c0 c3 {st'} e rest rec (returns (pending, s1, c1)) q =
      let same : st' ≡ chain (waiting (some s1)) i = cc (follows.on_pending s s1 i c c1 q) in
      let (r, c1', first, last) = rec s1 same in (r, c1', waits {s' = s1} q c3 first, last)
  waits-Parts r' c2 i s c c0 c3 {st'} e rest rec (returns (ok x, s1, c1)) q = (
    ok x,
    c1,
    ends {s' = s1} q refl,
    waits {s' = st'} (sym (follows.on_end s s1 i c c1 (ok x) q refl) ∙ e) c3 rest,
  )
  waits-Parts r' c2 i s c c0 c3 {st'} e rest rec (returns (err x, s1, c1)) q = (
    err x,
    c1,
    ends {s' = s1} q refl,
    waits {s' = st'} (sym (follows.on_end s s1 i c c1 (err x) q refl) ∙ e) c3 rest,
  )
  waits-Parts r' c2 i s c c0 c3 e rest rec (throws m) q = no_return s i c e (λ r s' c' h. cc)
  waits-Parts r' c2 i s c c0 c3 e rest rec aborts q = no_return s i c e (λ r s' c' h. cc)

  chain_complete :
      (r' : Result U V) (c2 : C) (s : S) (i : I) {st : Chain S I T E} {c : C}
      → Runs step r' c2 st c
      → st ≡ chain (waiting (some s)) i
      → Parts r' c2 i s c
  chain_complete r' c2 s i (ends {s = st} {s' = st'} {c} e p) q =
      ends-Parts r' c2 i s c {st' = st'} (rw (← q) e) p (run s c) refl
  chain_complete r' c2 s i (waits {s = st} {s' = st'} {c} {c1 = c0} e c3 rest) q =
      waits-Parts r' c2 i s c c0 c3 {st' = st'} (rw (← q) e) rest
        (λ s' q'. chain_complete r' c2 s' i rest q') (run s c) refl

  -- The runs are exactly those of the promise followed by the rest.
  pub chain_iff :
      (r' : Result U V) (c2 : C) (s : S) (i : I) (c : C)
      → Runs step r' c2 (chain (waiting (some s)) i) c ↔ Parts r' c2 i s c
  chain_iff r' c2 s i c =
      (λ h. chain_complete r' c2 s i h refl, λ h. chain_sound h.0 r' h.1 c2 i h.2 h.3)
