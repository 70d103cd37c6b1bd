-- ===== src/Core/Result/Laws.antt =====
-- The laws of the combinators of `Result` (bipolar/core/result.hpp).
use bipolar.Common.{◌≡◌, refl}
use bipolar.Common.Outcome.{returns, ◌>>=◌}
use bipolar.Core.Result.{Result, pending, ok, err, and_then, or_else, map_or_else}

module _ {ℓ κ} {T : Type ℓ} {E : Type κ} where
  -- Two steps in a row by `and_then` are one step that chains them on a value and passes an error
  -- on; where a result on the way is pending, both sides throw the same exception.
  pub and_then_assoc {τ υ} :
      {U : Type τ} {V : Type υ} (f : T → Result U E) (g : U → Result V E) (r : Result T E)
      → (and_then f r >>= and_then g)
        ≡ (map_or_else (λ e. returns (err e)) (λ x. and_then g (f x)) r >>= λ o. o)
  unfolding and_then map_or_else
  and_then_assoc f g pending = refl
  and_then_assoc f g (ok x) = refl
  and_then_assoc f g (err e) = refl

  -- Two recoveries in a row by `or_else` are one that chains them on an error and passes a value on;
  -- where a result on the way is pending, both sides throw the same exception.
  pub or_else_assoc {τ υ} :
      {U : Type τ} {V : Type υ} (f : E → Result T U) (g : U → Result T V) (r : Result T E)
      → (or_else f r >>= or_else g)
        ≡ (map_or_else (λ e. or_else g (f e)) (λ x. returns (ok x)) r >>= λ o. o)
  unfolding or_else map_or_else
  or_else_assoc f g pending = refl
  or_else_assoc f g (ok x) = refl
  or_else_assoc f g (err e) = refl
