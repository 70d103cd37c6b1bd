-- ===== src/Core/Option.antt =====
-- bipolar/core/option.hpp: `Option<T>` is the library's `Option`: `none` where `has_value_` is false,
-- else the stored value. A callback is a pure function; an access that throws
-- `OptionEmptyException` is an `Outcome`. A method that changes objects returns them, a moved-from
-- argument too.
pub mod Laws
pub mod Order
use Prim.Native.String.{String}
use bipolar.Common.{ℕ, Bool, true, false, not, Option, none, some, ◌&&◌, if◌then◌else◌}
use bipolar.Common.Outcome.{Outcome, returns, throws}

-- `==` between Booleans, and `<` between their values as integers.
abbrev pub same : Bool → Bool → Bool
same true b = b
same false b = not b

abbrev pub less : Bool → Bool → Bool
less a b = not a && b

module _ {ℓ} {T : Type ℓ} where
  unfoldable pub has_value : Option T → Bool
  has_value none = false
  has_value (some x) = true

  pub clear : Option T → Option T
  clear o = none

  pub construct : T → Option T → Option T
  construct x o = some x

  pub emplace : T → Option T → Option T
  unfolding clear construct
  emplace x o = construct x (clear o)

  -- `assign(T&&)`: over a value or into an empty object.
  pub assign : T → Option T → Option T
  unfolding construct
  assign x none = construct x none
  assign x (some y) = some x

  -- `assign(Option&&)` between two objects, as in the move assignment: this object, then `rhs`.
  pub assign_move : Option T → Option T → Option T × Option T
  unfolding assign clear
  assign_move none this = (clear this, none)
  assign_move (some x) this = (assign x this, clear (some x))

  -- `assign(const Option&)`.
  pub assign_copy : Option T → Option T → Option T
  unfolding assign clear
  assign_copy none this = clear this
  assign_copy (some x) this = assign x this

  -- `Option(Option&&)`: the new object, then `rhs`.
  pub move : Option T → Option T × Option T
  unfolding construct clear
  move none = (none, none)
  move (some x) = (construct x none, clear (some x))

  pub swap : Option T → Option T → Option T × Option T
  unfolding assign clear
  swap (some x) (some y) = (some y, some x)
  swap (some x) none = (clear (some x), assign x none)
  swap none (some y) = (assign y none, clear (some y))
  swap none none = (none, none)

  -- The value taken, then this object.
  pub take : Option T → Option T × Option T
  unfolding move
  take o = move o

  unfoldable pub value : Option T → Outcome T
  value none = throws none
  value (some x) = returns x

  unfoldable pub expect : String → Option T → Outcome T
  expect s none = throws (some s)
  expect s (some x) = returns x

  pub value_or : T → Option T → T
  value_or d none = d
  value_or d (some x) = x

  -- The fallback takes no argument: it is its value.
  pub value_or_else : T → Option T → T
  value_or_else f none = f
  value_or_else f (some x) = x

  unfoldable pub map {κ} : {U : Type κ} → (T → U) → Option T → Option U
  map f none = none
  map f (some x) = some (f x)

  unfoldable pub map_or {κ} : {U : Type κ} → U → (T → U) → Option T → U
  map_or d f none = d
  map_or d f (some x) = f x

  pub map_or_else {κ} : {U : Type κ} → U → (T → U) → Option T → U
  map_or_else d f none = d
  map_or_else d f (some x) = f x

  unfoldable pub and_then {κ} : {U : Type κ} → (T → Option U) → Option T → Option U
  and_then f none = none
  and_then f (some x) = f x

  unfoldable pub filter : (T → Bool) → Option T → Option T
  filter f none = none
  filter f (some x) = if f x then some x else none

  unfoldable pub or_else : Option T → Option T → Option T
  or_else f none = f
  or_else f (some x) = some x

  -- The comparisons take those of the value type.
  -- `*lhs` and `*rhs` where both hold a value, as the branches read them.
  both : (T → T → Bool) → Option T → Option T → Bool
  both f (some x) (some y) = f x y
  both f _ _ = false

  unfoldable pub eq : (T → T → Bool) → Option T → Option T → Bool
  unfolding has_value both
  eq eqT lhs rhs =
      if not (same (has_value lhs) (has_value rhs))
      then false
      else if has_value lhs
      then both eqT lhs rhs
      else true

  unfoldable pub ne : (T → T → Bool) → Option T → Option T → Bool
  unfolding eq
  ne eqT lhs rhs = not (eq eqT lhs rhs)

  unfoldable pub lt : (T → T → Bool) → Option T → Option T → Bool
  unfolding has_value both
  lt ltT lhs rhs =
      if not (same (has_value lhs) (has_value rhs))
      then less (has_value lhs) (has_value rhs)
      else if has_value lhs
      then both ltT lhs rhs
      else false

  unfoldable pub gt : (T → T → Bool) → Option T → Option T → Bool
  unfolding lt
  gt ltT lhs rhs = lt ltT rhs lhs

  unfoldable pub le : (T → T → Bool) → Option T → Option T → Bool
  unfolding gt
  le ltT lhs rhs = not (gt ltT lhs rhs)

  unfoldable pub ge : (T → T → Bool) → Option T → Option T → Bool
  unfolding lt
  ge ltT lhs rhs = not (lt ltT lhs rhs)

  -- The comparisons with `None` on the right, and on the left.
  unfoldable pub eq_none : Option T → Bool
  unfolding has_value
  eq_none lhs = not (has_value lhs)

  unfoldable pub ne_none : Option T → Bool
  unfolding has_value
  ne_none lhs = has_value lhs

  unfoldable pub lt_none : Option T → Bool
  lt_none lhs = false

  unfoldable pub gt_none : Option T → Bool
  unfolding has_value
  gt_none lhs = has_value lhs

  unfoldable pub le_none : Option T → Bool
  unfolding has_value
  le_none lhs = not (has_value lhs)

  unfoldable pub ge_none : Option T → Bool
  ge_none lhs = true

  unfoldable pub none_eq : Option T → Bool
  unfolding has_value
  none_eq rhs = not (has_value rhs)

  unfoldable pub none_ne : Option T → Bool
  unfolding has_value
  none_ne rhs = has_value rhs

  unfoldable pub none_lt : Option T → Bool
  unfolding has_value
  none_lt rhs = has_value rhs

  unfoldable pub none_gt : Option T → Bool
  none_gt rhs = false

  unfoldable pub none_le : Option T → Bool
  none_le rhs = true

  unfoldable pub none_ge : Option T → Bool
  unfolding has_value
  none_ge rhs = not (has_value rhs)

  -- `std::hash<Option<T>>`.
  pub hash : (T → ℕ) → Option T → ℕ
  hash h none = 0
  hash h (some x) = h x
