-- ===== src/Core/Function/View.antt =====
-- `Function` is an optional callable object.
use bipolar.Common.{◌≡◌, Bool, true, false, not, Bool-cases, Option, none, some, refl, ap, inl, inr}
use bipolar.Common.Outcome.{Outcome, throws}
use bipolar.Core.Function.{
  Kind, Object, Vtable, empty_vtable, insitu_vtable, heap_vtable, Function, Lifetimes, insitu,
  empty, construct, swap, move, assign_nullptr, assign_callable, assign, op_call, call, to_bool,
  eq_nullptr, ne_nullptr,
}

module _ {C Args R : Type 0} where
  -- The type and the value of the callable object, if there is one.
  abbrev of_parts : Vtable C Args R → Option (Object C) → Option (Kind C Args R × C)
  of_parts empty_vtable o = none
  of_parts (insitu_vtable t) none = none
  of_parts (insitu_vtable t) (some o) = some (t, o.value)
  of_parts (heap_vtable t) none = none
  of_parts (heap_vtable t) (some o) = some (t, o.value)

  abbrev pub view : Function C Args R → Option (Kind C Args R × C)
  view this = of_parts this.vtbl this.sto

  -- The flag and the storage agree with the table.
  abbrev Agrees : Vtable C Args R → Bool → Option (Object C) → Type 0
  Agrees empty_vtable avail none = avail ≡ false
  Agrees (insitu_vtable t) avail (some o) = avail ≡ true
  Agrees (heap_vtable t) avail (some o) = avail ≡ true
  Agrees _ _ _ = ⊥

  abbrev pub IsSound : Function C Args R → Type 0
  IsSound this = Agrees this.vtbl this.avail this.sto

  -- The reference: a call of an optional callable object, and the object after it.
  abbrev pub view_call : Option (Kind C Args R × C) → Args → Outcome R × Option (Kind C Args R × C)
  view_call none args = (throws none, none)
  view_call (some (t, value)) args = let (r, value') = t.invoke value args in (r, some (t, value'))

  abbrev pub is_some : Option (Kind C Args R × C) → Bool
  is_some none = false
  is_some (some a) = true

  -- What a call of a function does, in terms of what it views.
  abbrev pub Calls : Function C Args R → Args → Option (Outcome R × Function C Args R) → Type 0
  Calls this args none = ⊥
  Calls this args (some (r, this')) = IsSound this' × ((r, view this') ≡ view_call (view this) args)

  -- The state of a function after an operation, and what it views.
  abbrev pub Views : Option (Kind C Args R × C) → Function C Args R → Type 0
  Views v this = IsSound this × (view this ≡ v)

  construct-Views :
      (t : Kind C Args R) (value : C) (l : Lifetimes)
      → Views (some (t, value)) (construct t value l).0
  unfolding construct
  construct-Views t value l = elim (Bool-cases (insitu t)) [
    | inl e ↦ rw e (refl, refl)
    | inr e ↦ rw e (refl, refl)
  ]

  call_parts :
      (v : Vtable C Args R) (b : Bool) (o : Option (Object C)) (args : Args)
      → Agrees v b o
      → Calls
          (record { vtbl = v; avail = b; sto = o })
          args
          (call (record { vtbl = v; avail = b; sto = o }) args)
  unfolding call op_call
  call_parts empty_vtable b none args s = (s, refl)
  call_parts (insitu_vtable t) b (some o) args s = (s, refl)
  call_parts (heap_vtable t) b (some o) args s = (s, refl)
  call_parts empty_vtable b (some o) args s = absurd s
  call_parts (insitu_vtable t) b none args s = absurd s
  call_parts (heap_vtable t) b none args s = absurd s

  flag_parts :
      (v : Vtable C Args R) (b : Bool) (o : Option (Object C))
      → Agrees v b o
      → b ≡ is_some (of_parts v o)
  flag_parts empty_vtable b none s = s
  flag_parts (insitu_vtable t) b (some o) s = s
  flag_parts (heap_vtable t) b (some o) s = s
  flag_parts empty_vtable b (some o) s = absurd s
  flag_parts (insitu_vtable t) b none s = absurd s
  flag_parts (heap_vtable t) b none s = absurd s

  -- A function made from a callable object views it, whether it is stored in place or on the heap. On
  -- sound functions, all operations keep soundness and are those of optional callable objects: moving
  -- takes the object and leaves none, swapping and the assignments do the same, a call invokes the
  -- object or throws, and the conversion to a Boolean and the comparisons with `nullptr` tell whether
  -- there is one.
  pub operations_view :
      (t : Kind C Args R) (value : C) (this rhs : Function C Args R) (l : Lifetimes) (args : Args)
      → IsSound this
      → IsSound rhs
      → Views none empty
        × Views (some (t, value)) (construct t value l).0
        × (Views (view rhs) (move rhs).0 × Views none (move rhs).1)
        × (Views (view rhs) (swap this rhs).0 × Views (view this) (swap this rhs).1)
        × Views none (assign_nullptr this l).0
        × Views (some (t, value)) (assign_callable t value this l).0
        × (Views (view rhs) (assign this rhs l).0.0 × Views none (assign this rhs l).0.1)
        × Calls this args (call this args)
        × (to_bool this ≡ is_some (view this))
        × (eq_nullptr this ≡ not (is_some (view this)))
        × (ne_nullptr this ≡ is_some (view this))
  unfolding empty move swap assign_nullptr assign_callable assign to_bool eq_nullptr ne_nullptr
  operations_view t value this rhs l args s s' =
      let made = construct-Views t value l in
      let flag = flag_parts this.vtbl this.avail this.sto s in
      (
        (refl, refl),
        made,
        ((s', refl), (refl, refl)),
        ((s', refl), (s, refl)),
        (refl, refl),
        made,
        ((s', refl), (refl, refl)),
        call_parts this.vtbl this.avail this.sto args s,
        flag,
        ap not flag,
        flag,
      )
