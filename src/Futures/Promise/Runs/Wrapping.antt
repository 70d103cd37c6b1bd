-- ===== src/Futures/Promise/Runs/Wrapping.antt =====
-- A continuation that only carries the state of another one along (bipolar/futures/promise.hpp) has
-- the same runs.
use bipolar.Common.{◌≡◌, refl, sym, ◌∙◌, ◌↔◌, arith, false}
use bipolar.Common.Outcome.{returns, ◌>>=◌, >>=-eq-returns}
use bipolar.Core.Result.{Result, is_pending}
use bipolar.Futures.Promise.{Continuation}
use bipolar.Futures.Promise.Runs.{Runs, ends, waits}

module _ {C I St T E : Type 0} (inner : Continuation C I T E) (outer : Continuation C St T E)
    (wrap : I → St)
    (law : (i : I) (c : C)
      → outer (wrap i) c ≡ (inner i c >>= λ p. returns (p.0, wrap p.1, p.2))) where
  wrap_call :
      (i i' : I) (c c' : C) (r : Result T E)
      → inner i c ≡ returns (r, i', c')
      → outer (wrap i) c ≡ returns (r, wrap i', c')
  wrap_call i i' c c' r e = law i c ∙ rw e

  unwrap_call :
      (i : I) (c c' : C) (r : Result T E) (st' : St)
      → outer (wrap i) c ≡ returns (r, st', c')
      → (i' : I) × (inner i c ≡ returns (r, i', c')) × (st' ≡ wrap i')
  unwrap_call i c c' r st' e =
      let (p, h, q) = >>=-eq-returns (inner i c) _ (sym (law i c) ∙ e) in
      (p.1, h ∙ ground arith, ground arith)

  wrap-Runs :
      (r : Result T E) (c' : C) {i : I} {c : C} → Runs inner r c' i c → Runs outer r c' (wrap i) c
  wrap-Runs r c' (ends {s = i} {s' = i'} {c} e p) = ends {s' = wrap i'} (wrap_call i i' c c' r e) p
  wrap-Runs r c' (waits {s = i} {s' = i'} {c} {c1} e c2 rest) =
      waits {s' = wrap i'} (wrap_call i i' c c1 _ e) c2 (wrap-Runs r c' rest)

  unwrap-Runs :
      (r : Result T E) (c' : C) (i : I) {st : St} {c : C}
      → Runs outer r c' st c
      → st ≡ wrap i
      → Runs inner r c' i c
  unwrap-Runs r c' i (ends {s = st} {s' = st'} {c} e p) q =
      let (i', h, _) = unwrap_call i c c' r st' (rw (← q) e) in ends {s' = i'} h p
  unwrap-Runs r c' i (waits {s = st} {s' = st'} {c} {c1} e c2 rest) q =
      let (i', h, same) = unwrap_call i c c1 _ st' (rw (← q) e) in
      waits {s' = i'} h c2 (unwrap-Runs r c' i' rest same)

  pub wrap_iff :
      (r : Result T E) (c' : C) (i : I) (c : C) → Runs outer r c' (wrap i) c ↔ Runs inner r c' i c
  wrap_iff r c' i c = (λ h. unwrap-Runs r c' i h refl, wrap-Runs r c')

module _ {C S T E : Type 0} (run : Continuation C S T E) where
  -- A continuation that ends in its first call has that one run.
  pub ends_iff :
      (s s' : S) (c c1 : C) (r : Result T E)
      → run s c ≡ returns (r, s', c1)
      → is_pending r ≡ false
      → (r' : Result T E) (c' : C) → Runs run r' c' s c ↔ ((r' ≡ r) × (c' ≡ c1))
  unfolding is_pending
  ends_iff s s' c c1 r e p r' c' = (λ h. only h e, λ h. rw (h.0, h.1) (ends {s' = s'} e p))
    where
      only :
          {s : S} {c : C}
          → Runs run r' c' s c
          → run s c ≡ returns (r, s', c1)
          → (r' ≡ r) × (c' ≡ c1)
      only (ends e' p') q = ground arith
      only (waits e' c2 rest) q = absurd (ground arith)
