-- ===== src/Core/Result.antt =====
-- bipolar/core/result.hpp: `Result<T, E>`, a value, an error, or pending. The three alternatives are
-- those of the variant `sto_`. A callback is a pure function; an access that throws
-- `BadResultAccess` is an `Outcome`. The overloads for lvalues and rvalues compute the same value.
-- A method that changes the object returns the new object with its result.
pub mod Laws
pub mod Equality
use Prim.Native.String.{String}
use bipolar.Common.{Bool, true, false, not, Option, none, some, ◌&&◌, if◌then◌else◌}
use bipolar.Common.Outcome.{Outcome, returns, throws, ◌>>=◌}

pub data Result {ℓ κ} (T : Type ℓ) (E : Type κ) : Type (ℓ ⊔ κ) where
  pending : Result T E
  ok : T → Result T E
  err : E → Result T E

-- `==` between Booleans.
abbrev pub same : Bool → Bool → Bool
same true b = b
same false b = not b

module _ {ℓ κ} {T : Type ℓ} {E : Type κ} where
  unfoldable pub is_pending : Result T E → Bool
  is_pending pending = true
  is_pending (ok x) = false
  is_pending (err e) = false

  unfoldable pub is_ok : Result T E → Bool
  is_ok pending = false
  is_ok (ok x) = true
  is_ok (err e) = false

  unfoldable pub is_error : Result T E → Bool
  is_error pending = false
  is_error (ok x) = false
  is_error (err e) = true

  -- `operator bool`.
  unfoldable pub to_bool : Result T E → Bool
  to_bool pending = false
  to_bool (ok x) = true
  to_bool (err e) = true

  unfoldable pub value : Result T E → Outcome T
  value pending = throws none
  value (ok x) = returns x
  value (err e) = throws none

  unfoldable pub error : Result T E → Outcome E
  error pending = throws none
  error (ok x) = throws none
  error (err e) = returns e

  pub expect : String → Result T E → Outcome T
  expect s pending = throws (some s)
  expect s (ok x) = returns x
  expect s (err e) = throws (some s)

  pub expect_err : String → Result T E → Outcome E
  expect_err s pending = throws (some s)
  expect_err s (ok x) = throws (some s)
  expect_err s (err e) = returns e

  -- The value moves out and the object is reset.
  pub take_value : Result T E → Outcome (T × Result T E)
  unfolding value
  take_value r = value r >>= λ x. returns (x, pending)

  pub take_error : Result T E → Outcome (E × Result T E)
  unfolding error
  take_error r = error r >>= λ e. returns (e, pending)

  pub reset : Result T E → Result T E
  reset r = pending

  pub emplace : T → Result T E → Result T E
  emplace x r = ok x

  -- The new object and what is left of `rhs`, which is pending.
  pub move : Result T E → Result T E × Result T E
  move rhs = (rhs, pending)

  pub swap : Result T E → Result T E → Result T E × Result T E
  swap lhs rhs = (rhs, lhs)

  pub value_or : T → Result T E → T
  value_or d pending = d
  value_or d (ok x) = x
  value_or d (err e) = d

  pub value_or_else : (E → T) → Result T E → Outcome T
  value_or_else f pending = throws none
  value_or_else f (ok x) = returns x
  value_or_else f (err e) = returns (f e)

  unfoldable pub map {τ} : {U : Type τ} → (T → U) → Result T E → Result U E
  map f pending = pending
  map f (ok x) = ok (f x)
  map f (err e) = err e

  unfoldable pub map_err {τ} : {U : Type τ} → (E → U) → Result T E → Result T U
  map_err f pending = pending
  map_err f (ok x) = ok x
  map_err f (err e) = err (f e)

  pub map_or_else {τ} : {U : Type τ} → (E → U) → (T → U) → Result T E → Outcome U
  map_or_else m f pending = throws none
  map_or_else m f (ok x) = returns (f x)
  map_or_else m f (err e) = returns (m e)

  unfoldable pub and_then {τ} : {U : Type τ} → (T → Result U E) → Result T E → Outcome (Result U E)
  and_then f pending = throws none
  and_then f (ok x) = returns (f x)
  and_then f (err e) = returns (err e)

  unfoldable pub or_else {τ} : {U : Type τ} → (E → Result T U) → Result T E → Outcome (Result T U)
  or_else f pending = throws none
  or_else f (ok x) = returns (ok x)
  or_else f (err e) = returns (f e)

  -- The comparisons take the equality tests of the value and the error type.
  pub contains : (T → T → Bool) → T → Result T E → Bool
  contains eq x pending = false
  contains eq x (ok y) = eq y x
  contains eq x (err e) = false

  pub contains_err : (E → E → Bool) → E → Result T E → Bool
  contains_err eq x pending = false
  contains_err eq x (ok y) = false
  contains_err eq x (err e) = eq e x

  -- `operator==` between two results: the branches test `is_ok` of both, then whether `is_error`
  -- agrees, then whether `is_pending` agrees.
  pub eq : (T → T → Bool) → (E → E → Bool) → Result T E → Result T E → Outcome Bool
  unfolding is_pending is_ok is_error value error
  eq eqT eqE lhs rhs =
      if is_ok lhs && is_ok rhs
      then value lhs >>= (λ x. value rhs >>= λ y. returns (eqT x y))
      else if same (is_error lhs) (is_error rhs)
      then error lhs >>= (λ x. error rhs >>= λ y. returns (eqE x y))
      else returns (same (is_pending lhs) (is_pending rhs))

  -- `operator==` with an `Ok` and with an `Err`.
  pub eq_ok : (T → T → Bool) → Result T E → T → Bool
  eq_ok eqT pending y = false
  eq_ok eqT (ok x) y = eqT x y
  eq_ok eqT (err e) y = false

  pub eq_err : (E → E → Bool) → Result T E → E → Bool
  eq_err eqE pending y = false
  eq_err eqE (ok x) y = false
  eq_err eqE (err e) y = eqE e y
