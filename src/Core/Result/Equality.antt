-- ===== src/Core/Result/Equality.antt =====
-- `operator==` of `Result` (bipolar/core/result.hpp): exactly when it says yes, and when it throws.
use bipolar.Common.{◌≡◌, refl, ◌↔◌, ◌⊎◌, inl, inr, Bool, true, false, none, arith, ap}
use bipolar.Common.Outcome.{returns, throws}
use bipolar.Core.Result.{Result, pending, ok, err, is_pending, is_ok, is_error, eq}

module _ {ℓ κ} {T : Type ℓ} {E : Type κ} (eqT : T → T → Bool) (eqE : E → E → Bool)
    (eqT_iff : (x y : T) → (eqT x y ≡ true) ↔ (x ≡ y))
    (eqE_iff : (x y : E) → (eqE x y ≡ true) ↔ (x ≡ y)) where
  -- One of the results is a value and the other one an error.
  abbrev pub Mixed : Result T E → Result T E → Type 0
  Mixed l r = ((is_ok l ≡ true) × (is_error r ≡ true)) ⊎ ((is_error l ≡ true) × (is_ok r ≡ true))

  -- If the element types are compared correctly, the comparison returns true exactly for two results
  -- that are the same and not pending, and for a value with an error, whatever these hold.
  pub eq-true_iff :
      (l r : Result T E)
      → (eq eqT eqE l r ≡ returns true) ↔ (((l ≡ r) × (is_pending l ≡ false)) ⊎ Mixed l r)
  unfolding eq is_pending is_ok is_error
  eq-true_iff pending pending = (λ h. cc, λ h. ground arith)
  eq-true_iff pending (ok y) = (λ h. cc, λ h. ground arith)
  eq-true_iff pending (err y) = (λ h. cc, λ h. ground arith)
  eq-true_iff (ok x) pending = (λ h. cc, λ h. ground arith)
  eq-true_iff (ok x) (ok y) =
      (λ h. inl (ap ok ((eqT_iff x y).0 (ground arith)), refl), λ h. ground (arith, eqT_iff x y))
  eq-true_iff (ok x) (err y) = (λ h. inr (inl (refl, refl)), λ h. refl)
  eq-true_iff (err x) pending = (λ h. cc, λ h. ground arith)
  eq-true_iff (err x) (ok y) = (λ h. inr (inr (refl, refl)), λ h. refl)
  eq-true_iff (err x) (err y) =
      (λ h. inl (ap err ((eqE_iff x y).0 (ground arith)), refl), λ h. ground (arith, eqE_iff x y))

  -- The comparison throws, without a description, exactly when one result is pending and the other
  -- one is not an error.
  pub eq-throws_iff :
      (l r : Result T E)
      → (eq eqT eqE l r ≡ throws none) ↔ (
          ((is_pending l ≡ true) × (is_error r ≡ false))
          ⊎ ((is_pending r ≡ true) × (is_error l ≡ false)))
  unfolding eq is_pending is_ok is_error
  eq-throws_iff pending pending = (λ h. inl (refl, refl), λ h. refl)
  eq-throws_iff pending (ok y) = (λ h. inl (refl, refl), λ h. refl)
  eq-throws_iff pending (err y) = (λ h. cc, λ h. ground arith)
  eq-throws_iff (ok x) pending = (λ h. inr (refl, refl), λ h. refl)
  eq-throws_iff (ok x) (ok y) = (λ h. cc, λ h. ground arith)
  eq-throws_iff (ok x) (err y) = (λ h. cc, λ h. ground arith)
  eq-throws_iff (err x) pending = (λ h. cc, λ h. ground arith)
  eq-throws_iff (err x) (ok y) = (λ h. cc, λ h. ground arith)
  eq-throws_iff (err x) (err y) = (λ h. cc, λ h. ground arith)
