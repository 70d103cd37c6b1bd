-- ===== src/Futures/Promise/Make/Laws.antt =====
-- Promises that are made from results, alone and before `and_then` and `or_else`.
use bipolar.Common.{◌≡◌, ◌↔◌, refl, subst, false, some}
use bipolar.Core.Result.{Result, pending, is_pending}
use bipolar.Futures.Promise.Future.{waiting}
use bipolar.Futures.Promise.Adaptor.{Invoker, chain, and_then_run, or_else_run}
use bipolar.Futures.Promise.Make.{result_run}
use bipolar.Futures.Promise.Runs.{Runs}
use bipolar.Futures.Promise.Runs.Combinators.{AfterValue, AfterError, and_then_iff, or_else_iff}
use bipolar.Futures.Promise.Runs.Wrapping.{ends_iff}

module _ {C T E : Type 0} where
  -- A result that is not pending is the end of the first call.
  result_iff :
      (r : Result T E) (r' : Result T E) (c c' : C)
      → is_pending r ≡ false
      → Runs result_run r' c' r c ↔ ((r' ≡ r) × (c' ≡ c))
  unfolding result_run
  result_iff r r' c c' h = ends_iff result_run r pending c c r refl h r' c'

  -- The end of a promise made from a result, and what follows it.
  after_result :
      (P : Result T E → C → Type 0) (r : Result T E) (c : C)
      → is_pending r ≡ false
      → ((r1 : Result T E) × (c1 : C) × Runs result_run r1 c1 r c × P r1 c1) ↔ P r c
  after_result P r c h = (
    (λ (r1, c1, first, last).
        let (e, d) = (result_iff r r1 c c1 h).0 first in
        subst (λ x. P x c) e (subst (P r1) d last)),
    λ p. (r, c, (result_iff r r c c h).1 (refl, refl), p),
  )

module _ {C I J T E U V : Type 0} (invoke : Invoker C I T U E) (recover : Invoker C J E T V) where
  -- A promise made from a value, with `and_then`, runs as the handler's invoker on that value does, and
  -- with `or_else` it ends with the value and calls nothing. One made from an error, with `or_else`,
  -- runs as the handler's invoker on the error does, and with `and_then` it ends with the error.
  pub result_combinators_iff :
      (r : Result T E) (r' : Result U E) (r'' : Result T V) (c2 : C) (i : I) (j : J) (c : C)
      → is_pending r ≡ false
      → (Runs (and_then_run result_run invoke) r' c2 (chain (waiting (some r)) i) c
          ↔ AfterValue result_run invoke r r' c2 i c)
        × (Runs (or_else_run result_run recover) r'' c2 (chain (waiting (some r)) j) c
            ↔ AfterError result_run recover r r'' c2 j c)
  result_combinators_iff r r' r'' c2 i j c h =
      let (to, from) = and_then_iff result_run invoke r' c2 r i c in
      let (into, out) = after_result (λ r1 c1. AfterValue result_run invoke r1 r' c2 i c1) r c h in
      let (to', from') = or_else_iff result_run recover r'' c2 r j c in
      let (into', out') =
        after_result (λ r1 c1. AfterError result_run recover r1 r'' c2 j c1) r c h in
      (((λ x. into (to x)), λ x. from (out x)), ((λ x. into' (to' x)), λ x. from' (out' x)))
