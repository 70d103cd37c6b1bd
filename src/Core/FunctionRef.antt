-- ===== src/Core/FunctionRef.antt =====
-- bipolar/core/function_ref.hpp: `FunctionRef<R(Args...)>`, which refers to a callable object that it
-- does not own. The objects stand in a store by their addresses; calling one may change it.
pub mod Aliasing
use bipolar.Common.{ℕ, ◌==◌, Bool, true, false, if◌then◌else◌, Option, none, some}
use bipolar.Common.Outcome.{Outcome}

-- The objects that are alive, by address.
abbrev pub Store : Type 0 → Type 0
Store C = ℕ → Option C

-- The store after the object at an address was written, or destroyed (`none`).
abbrev pub set : {C : Type 0} → ℕ → Option C → Store C → Store C
set a o store b = if b == a then o else store b

-- `obj_` and `call_`.
pub record FunctionRef (C Args R : Type 0) : Type 0 where
  pub obj : ℕ
  pub call : Store C → ℕ → Args → Option (Outcome R × Store C)

-- What the call returns, and the store with the object as the call left it.
abbrev pub stored : {C R : Type 0} → ℕ → Store C → Outcome R × C → Option (Outcome R × Store C)
stored obj store (r, value) = some (r, set obj (some value) store)

module _ {C Args R : Type 0} where
  -- The function that `make_call<F>` returns, for the call of an `F`. Where the object is not alive,
  -- the call is undefined: `none`.
  abbrev pub invoked :
      (C → Args → Outcome R × C) → Store C → ℕ → Args → Option C → Option (Outcome R × Store C)
  invoked invoke store obj args none = none
  invoked invoke store obj args (some value) = stored obj store (invoke value args)

  unfoldable pub make_call :
      (C → Args → Outcome R × C) → Store C → ℕ → Args → Option (Outcome R × Store C)
  make_call invoke store obj args = invoked invoke store obj args (store obj)

  -- The constructor from a callable object of type `F`, by its address.
  unfoldable pub construct : (C → Args → Outcome R × C) → ℕ → FunctionRef C Args R
  unfolding make_call
  construct invoke f = record { obj = f; call = make_call invoke }

  -- The assignment of a callable object.
  unfoldable pub assign :
      (C → Args → Outcome R × C) → ℕ → FunctionRef C Args R → FunctionRef C Args R
  unfolding make_call
  assign invoke f this = record this { obj = f; call = make_call invoke }

  unfoldable pub op_call : FunctionRef C Args R → Args → Store C → Option (Outcome R × Store C)
  op_call this args store = this.call store this.obj args

  unfoldable pub swap :
      FunctionRef C Args R → FunctionRef C Args R → FunctionRef C Args R × FunctionRef C Args R
  swap this other = (
    record this { obj = other.obj; call = other.call },
    record other { obj = this.obj; call = this.call },
  )
