-- ===== src/Futures/Promise/Future/States.antt =====
-- The states of a future (bipolar/futures/future_inl.hpp).
use bipolar.Common.{◌≡◌, ◌↔◌, Bool, true, false, Option, none, some}
use bipolar.Common.Outcome.{Outcome, returns, throws, aborts}
use bipolar.Futures.Promise.{Continuation}
use bipolar.Core.Result.{Result}
use bipolar.Core.Result as core
use bipolar.Futures.Promise.Future.{
  Future, FutureState, nothing, waiting, ready, is_pending, value, error_of, take_promise,
  take_result, take_value, take_error, move, swap, assign_nullptr, assign_promise, assign_result,
  of_promise, of_result, poll,
}

-- The tests that hold in each state.
abbrev pub tests : FutureState → Bool × Bool × Bool × Bool
tests FutureState.empty = (true, false, false, false)
tests FutureState.pending = (false, true, false, false)
tests FutureState.ok = (false, false, true, false)
tests FutureState.error = (false, false, false, true)

module _ {S T E : Type 0} where
  -- A result in a future is not pending, and a promise is not empty.
  abbrev pub IsSound : Future S T E → Type 0
  IsSound nothing = Unit
  IsSound (waiting none) = ⊥
  IsSound (waiting (some s)) = Unit
  IsSound (ready r) = core.is_pending r ≡ false

  -- And what `value()` and `error()` give: a value in one state, an error in another one, and else an
  -- assertion fails. No access throws.
  abbrev Gives : Future S T E → Outcome T → Outcome E → Type 0
  Gives nothing v e = (v ≡ aborts) × (e ≡ aborts)
  Gives (waiting p) v e = (v ≡ aborts) × (e ≡ aborts)
  Gives (ready core.pending) v e = ⊥
  Gives (ready (core.ok x)) v e = (v ≡ returns x) × (e ≡ aborts)
  Gives (ready (core.err x)) v e = (v ≡ aborts) × (e ≡ returns x)

  abbrev pub Access : Future S T E → Type 0
  Access f = Gives f (value f) (error_of f)

module _ {S T E : Type 0} where
  -- The future that an operation leaves is sound, if the operation returns.
  abbrev pub Kept : {A : Type 0} → Outcome (A × Future S T E) → Type 0
  Kept (returns (a, f)) = IsSound f
  Kept (throws e) = Unit
  Kept aborts = Unit

  -- What may be written through a reference, if the operation returns one.
  abbrev pub Admits : {A : Type 0} → (A → Type 0) → Outcome (A × (A → Future S T E)) → Type 0
  Admits P (returns (a, put)) = (a' : _) → IsSound (put a') ↔ P a'
  Admits P (throws e) = Unit
  Admits P aborts = Unit

  -- What is taken in each state, after which the future is empty; else an assertion fails.
  abbrev Taken :
      Future S T E
      → Outcome (Option S × Future S T E)
      → Outcome (Result T E × Future S T E)
      → Outcome (T × Future S T E)
      → Outcome (E × Future S T E)
      → Type 0
  Taken nothing p r v e = (p ≡ aborts) × (r ≡ aborts) × (v ≡ aborts) × (e ≡ aborts)
  Taken (waiting s) p r v e =
      (p ≡ returns (s, nothing)) × (r ≡ aborts) × (v ≡ aborts) × (e ≡ aborts)
  Taken (ready core.pending) p r v e = ⊥
  Taken (ready (core.ok x)) p r v e =
      (p ≡ aborts) × (r ≡ returns (core.ok x, nothing)) × (v ≡ returns (x, nothing)) × (e ≡ aborts)
  Taken (ready (core.err x)) p r v e =
      (p ≡ aborts) × (r ≡ returns (core.err x, nothing)) × (v ≡ aborts) × (e ≡ returns (x, nothing))

  abbrev pub Takes : Future S T E → Type 0
  Takes f = Taken f (take_promise f) (take_result f) (take_value f) (take_error f)

module _ {C S T E : Type 0} (run : Continuation C S T E) where
  -- What operations make of a sound future.
  abbrev pub Keeps : Future S T E → Future S T E → Option S → Result T E → C → Type 0
  Keeps f g p r c =
      (IsSound (of_promise {T = T} {E = E} p) × IsSound (of_result {S = S} r))
      × (IsSound (assign_nullptr f) × IsSound (assign_promise p f) × IsSound (assign_result r f))
      × (IsSound (move f).0 × IsSound (move f).1)
      × (IsSound (swap f g).0 × IsSound (swap f g).1)
      × (Kept (take_promise f) × Kept (take_result f) × Kept (take_value f) × Kept (take_error f))
      × ((f' : Future S T E) (b : Bool) (c' : C) → poll run f c ≡ returns (b, f', c') → IsSound f')
