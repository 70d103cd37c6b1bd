-- ===== src/Core/ScopeGuard.antt =====
-- bipolar/core/scope_guard.hpp: the three scope guards. The callback is a function of the state `S` of all
-- that it may change.
pub mod Exits
use bipolar.Common.{ℕ, Bool, true, false, not, ◌==◌, ltb, if◌then◌else◌, List, [], ◌∷◌}

-- `prev_uncaught_exceptions` is the number of uncaught exceptions when the guard was made.
pub data Guard (S : Type 0) : Type 0 where
  scope_guard_exit : (f : S → S) (dismissed : Bool) → Guard S
  scope_guard_success scope_guard_failure : (f : S → S) (prev_uncaught_exceptions : ℕ) → Guard S

module _ {S : Type 0} where
  abbrev pub new_exit : (S → S) → Guard S
  new_exit f = scope_guard_exit f false

  -- The other constructors, where so many exceptions are uncaught.
  abbrev pub new_success : (S → S) → ℕ → Guard S
  new_success f uncaught_exceptions = scope_guard_success f uncaught_exceptions

  abbrev pub new_failure : (S → S) → ℕ → Guard S
  new_failure f uncaught_exceptions = scope_guard_failure f uncaught_exceptions

  -- The other guards have no such method.
  unfoldable pub dismiss : Guard S → Guard S
  dismiss (scope_guard_exit f dismissed) = scope_guard_exit f true
  dismiss guard = guard

  -- The destructors, where so many exceptions are uncaught.
  unfoldable pub destroy : ℕ → Guard S → S → S
  destroy latest (scope_guard_exit f dismissed) s = if not dismissed then f s else s
  destroy latest (scope_guard_success f prev) s = if latest == prev then f s else s
  destroy latest (scope_guard_failure f prev) s = if ltb prev latest then f s else s
