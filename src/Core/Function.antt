-- ===== src/Core/Function.antt =====
-- bipolar/core/function.hpp: `Function<R(Args...)>`, which owns a callable object of any type, in its own
-- storage or on the heap. The value of a callable object is of the type `C`; calling it may change
-- it.
pub mod View
pub mod Lifetime
use bipolar.Common.{
  ℕ, ◌+◌, Bool, true, false, not, ◌&&◌, ◌||◌, if◌then◌else◌, Option, none, some, List, [], ◌∷◌,
}
use bipolar.Common.Outcome.{Outcome, throws}

-- The argument type `F` of the constructor, which is `T` or `T&`, and what is used of `T`: whether its
-- size and alignment are those of the storage at most, the traits `is_nothrow_move_constructible` and
-- `is_trivially_destructible`, and its call.
pub record Kind (C Args R : Type 0) : Type 0 where
  pub lvalue : Bool
  pub fits : Bool
  pub nothrow_move : Bool
  pub trivial_destructor : Bool
  pub invoke : C → Args → Outcome R × C

-- A callable object: which one it is, and its value.
pub record Object (C : Type 0) : Type 0 where
  pub id : ℕ
  pub value : C

-- The tables of functions, with the type that they were made for.
pub data Vtable (C Args R : Type 0) : Type 0 where
  empty_vtable : Vtable C Args R
  insitu_vtable heap_vtable : Kind C Args R → Vtable C Args R

-- `sto` is the object in the storage, or the one that the pointer there points to; `none` is a storage
-- that is not initialized.
pub record Function (C Args R : Type 0) : Type 0 where
  pub vtbl : Vtable C Args R
  pub avail : Bool
  pub sto : Option (Object C)

-- The objects that were made and have to be destroyed, and the objects that were.
pub record Lifetimes : Type 0 where
  pub next : ℕ
  pub made : List ℕ
  pub destroyed : List ℕ

abbrev pub with_made : Bool → Lifetimes → Lifetimes
with_made true l = record l { next = l.next + 1; made = l.next ∷ l.made }
with_made false l = record l { next = l.next + 1 }

abbrev pub with_destroyed : {C : Type 0} → Option (Object C) → Lifetimes → Lifetimes
with_destroyed none l = l
with_destroyed (some o) l = record l { destroyed = o.id ∷ l.destroyed }

module _ {C Args R : Type 0} where
  -- The traits of a reference `T&` hold of any `T`.
  unfoldable pub insitu : Kind C Args R → Bool
  insitu t = t.fits && (t.lvalue || t.nothrow_move)

  abbrev pub vtable_for : Kind C Args R → Vtable C Args R
  vtable_for t = if insitu t then insitu_vtable t else heap_vtable t

  -- An object on the heap has to be deleted, whatever its type.
  abbrev pub is_owed : Kind C Args R → Bool
  is_owed t = not (insitu t && t.trivial_destructor)

  unfoldable pub empty : Function C Args R
  empty = record { vtbl = empty_vtable; avail = false; sto = none }

  -- The constructor from a callable object, with `init`.
  unfoldable pub construct : Kind C Args R → C → Lifetimes → Function C Args R × Lifetimes
  unfolding insitu
  construct t value l = (
    record {
      vtbl = vtable_for t;
      avail = true;
      sto = some (record { id = l.next; value = value });
    },
    with_made (is_owed t) l,
  )

  unfoldable pub swap :
      Function C Args R → Function C Args R → Function C Args R × Function C Args R
  swap this rhs = (
    record this { vtbl = rhs.vtbl; avail = rhs.avail; sto = rhs.sto },
    record rhs { vtbl = this.vtbl; avail = this.avail; sto = this.sto },
  )

  -- The move constructor: the new object and the source.
  unfoldable pub move : Function C Args R → Function C Args R × Function C Args R
  unfolding swap empty
  move rhs = let (rhs', this) = swap rhs empty in (this, rhs')

  -- `Op::destroy` of each table. The object in the storage is destroyed unless
  -- `is_trivially_destructible_v<F>`, which holds of every reference.
  unfoldable pub op_destroy : Vtable C Args R → Option (Object C) → Lifetimes → Lifetimes
  op_destroy empty_vtable o l = l
  op_destroy (insitu_vtable t) o l =
      if t.lvalue || t.trivial_destructor then l else with_destroyed o l
  op_destroy (heap_vtable t) o l = with_destroyed o l

  -- The destructor.
  unfoldable pub destroy : Function C Args R → Lifetimes → Lifetimes
  unfolding op_destroy
  destroy this l = op_destroy this.vtbl this.sto l

  -- The assignments. Each makes an object, swaps it with the target, and destroys it.
  unfoldable pub assign_nullptr : Function C Args R → Lifetimes → Function C Args R × Lifetimes
  unfolding swap empty destroy
  assign_nullptr this l = let (temporary, this') = swap empty this in (this', destroy temporary l)

  unfoldable pub assign_callable :
      Kind C Args R → C → Function C Args R → Lifetimes → Function C Args R × Lifetimes
  unfolding construct swap destroy
  assign_callable t value this l =
      let (made, l') = construct t value l in
      let (temporary, this') = swap made this in (this', destroy temporary l')

  unfoldable pub assign :
      Function C Args R
      → Function C Args R
      → Lifetimes
      → (Function C Args R × Function C Args R) × Lifetimes
  unfolding move swap destroy
  assign this rhs l =
      let (moved, rhs') = move rhs in
      let (temporary, this') = swap moved this in ((this', rhs'), destroy temporary l)

  abbrev invoked : Kind C Args R → Args → Option (Object C) → Option (Outcome R × Option (Object C))
  invoked t args none = none
  invoked t args (some o) =
      let (r, value) = t.invoke o.value args in some (r, some (record o { value = value }))

  -- `Op::call` of each table, which reads the storage: without an object there, what it does is
  -- undefined, a result `none`. The exception of an empty function is `std::bad_function_call`.
  unfoldable pub op_call :
      Vtable C Args R → Args → Option (Object C) → Option (Outcome R × Option (Object C))
  op_call empty_vtable args o = some (throws none, o)
  op_call (insitu_vtable t) args o = invoked t args o
  op_call (heap_vtable t) args o = invoked t args o

  abbrev after_call :
      Function C Args R
      → Option (Outcome R × Option (Object C))
      → Option (Outcome R × Function C Args R)
  after_call this none = none
  after_call this (some (r, o)) = some (r, record this { sto = o })

  -- `operator()`.
  unfoldable pub call : Function C Args R → Args → Option (Outcome R × Function C Args R)
  unfolding op_call
  call this args = after_call this (op_call this.vtbl args this.sto)

  -- `operator bool`, and the comparisons with `nullptr`.
  unfoldable pub to_bool : Function C Args R → Bool
  to_bool this = this.avail

  unfoldable pub eq_nullptr : Function C Args R → Bool
  unfolding to_bool
  eq_nullptr lhs = not (to_bool lhs)

  unfoldable pub ne_nullptr : Function C Args R → Bool
  unfolding to_bool
  ne_nullptr lhs = to_bool lhs
