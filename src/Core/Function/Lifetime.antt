-- ===== src/Core/Function/Lifetime.antt =====
-- The objects that `Function` makes are destroyed, each once, unless it was made from an lvalue.
use bipolar.Common.{
  ℕ, ◌+◌, ◌≡◌, ◌==◌, Bool, true, false, not, ◌&&◌, Bool-cases, if◌then◌else◌, Option, none, some,
  weigh, arith, refl, inl, inr, ◌↔◌,
}
use bipolar.Core.Function.{
  Kind, Object, Vtable, empty_vtable, insitu_vtable, heap_vtable, Function, Lifetimes, insitu,
  is_owed, with_made, empty, construct, swap, move, assign_nullptr, assign_callable, assign,
  op_destroy, destroy,
}

-- Whether this is the object `k`, as 1 or 0.
abbrev same : ℕ → ℕ → ℕ
same k n = if n == k then 1 else 0

-- The object that a function has to destroy, if it has one.
abbrev has : {C : Type 0} → ℕ → Option (Object C) → ℕ
has k none = 0
has k (some o) = same k o.id

module _ {C Args R : Type 0} where
  -- An lvalue of a type that needs its destructor, and is stored in place.
  abbrev pub is_forgotten : Kind C Args R → Bool
  is_forgotten t = t.lvalue && (insitu t && not t.trivial_destructor)

  abbrev owes_parts : ℕ → Vtable C Args R → Option (Object C) → ℕ
  owes_parts k empty_vtable o = 0
  owes_parts k (insitu_vtable t) o = if t.trivial_destructor then 0 else has k o
  owes_parts k (heap_vtable t) o = has k o

  abbrev pub owes : ℕ → Function C Args R → ℕ
  owes k this = owes_parts k this.vtbl this.sto

  -- The type of a function's object is not one that is forgotten.
  abbrev IsRemembered : Vtable C Args R → Type 0
  IsRemembered empty_vtable = Unit
  IsRemembered (insitu_vtable t) = (t.lvalue && not t.trivial_destructor) ≡ false
  IsRemembered (heap_vtable t) = Unit

  abbrev pub IsKept : Function C Args R → Type 0
  IsKept this = IsRemembered this.vtbl

-- What was made between two moments is what was destroyed, and what the functions owe more: `before`
-- and `after`, by objects.
abbrev pub Balances : Lifetimes → Lifetimes → (ℕ → ℕ) → (ℕ → ℕ) → Type 0
Balances l l' before after =
    (k : ℕ)
    → weigh (same k) l'.made + weigh (same k) l.destroyed + before k
      ≡ weigh (same k) l.made + weigh (same k) l'.destroyed + after k

with_made-Balances :
    (b : Bool) (l : Lifetimes)
    → Balances l (with_made b l) (λ _. 0) (λ k. if b then same k l.next else 0)
with_made-Balances true l k = omega arith
with_made-Balances false l k = omega arith

module _ {C Args R : Type 0} where
  owes_made :
      (t : Kind C Args R) (i : Bool) (k : ℕ) (o : Option (Object C))
      → owes_parts k (if i then insitu_vtable t else heap_vtable t) o
        ≡ (if not (i && t.trivial_destructor) then has k o else 0)
  owes_made t true k o = ground arith
  owes_made t false k o = refl

  construct-Balances :
      (t : Kind C Args R) (value : C) (l : Lifetimes)
      → Balances l (construct t value l).1 (λ _. 0) (λ k. owes k (construct t value l).0)
  unfolding construct
  construct-Balances t value l k = omega (
    arith,
    with_made-Balances (is_owed t) l k,
    owes_made t (insitu t) k (some (record { id = l.next; value = value })),
  )

  op_destroy-Balances :
      (v : Vtable C Args R) (o : Option (Object C)) (l : Lifetimes)
      → IsRemembered v
      → Balances l (op_destroy v o l) (λ k. owes_parts k v o) (λ _. 0)
  unfolding op_destroy
  op_destroy-Balances empty_vtable o l r k = omega arith
  op_destroy-Balances (insitu_vtable t) none l r k = ground arith
  op_destroy-Balances (insitu_vtable t) (some o) l r k = ground arith
  op_destroy-Balances (heap_vtable t) none l r k = omega arith
  op_destroy-Balances (heap_vtable t) (some o) l r k = omega arith

  destroy-Balances :
      (this : Function C Args R) (l : Lifetimes)
      → IsKept this
      → Balances l (destroy this l) (λ k. owes k this) (λ _. 0)
  unfolding destroy
  destroy-Balances this l r = op_destroy-Balances this.vtbl this.sto l r

  construct-IsKept :
      (t : Kind C Args R) (value : C) (l : Lifetimes)
      → is_forgotten t ≡ false
      → IsKept (construct t value l).0
  unfolding construct
  construct-IsKept t value l h = elim (Bool-cases (insitu t)) [
    | inl e ↦ rw e (ground (arith, h, e))
    | inr e ↦ rw e tt
  ]

  -- What is made, destroyed and owed at each operation.
  abbrev pub Accounts :
      Kind C Args R → C → Function C Args R → Function C Args R → Lifetimes → Type 0
  Accounts t value this rhs l =
      (IsKept (construct t value l).0
        × Balances l (construct t value l).1 (λ _. 0) (λ k. owes k (construct t value l).0))
      × Balances l (destroy this l) (λ k. owes k this) (λ _. 0)
      × Balances l l (λ k. owes k rhs) (λ k. owes k (move rhs).0 + owes k (move rhs).1)
      × Balances l l (λ k. owes k this + owes k rhs)
          (λ k. owes k (swap this rhs).0 + owes k (swap this rhs).1)
      × Balances l (assign_nullptr this l).1 (λ k. owes k this)
          (λ k. owes k (assign_nullptr this l).0)
      × Balances l (assign_callable t value this l).1 (λ k. owes k this)
          (λ k. owes k (assign_callable t value this l).0)
      × Balances l (assign this rhs l).1 (λ k. owes k this + owes k rhs)
          (λ k. owes k (assign this rhs l).0.0 + owes k (assign this rhs l).0.1)
      × ((k : ℕ)
          → (owes k (move rhs).0 ≡ owes k rhs)
            × (owes k (move rhs).1 ≡ 0)
            × (owes k (swap this rhs).0 ≡ owes k rhs)
            × (owes k (swap this rhs).1 ≡ owes k this)
            × (owes k (assign_nullptr this l).0 ≡ 0)
            × (owes k (assign_callable t value this l).0 ≡ owes k (construct t value l).0)
            × (owes k (assign this rhs l).0.0 ≡ owes k rhs)
            × (owes k (assign this rhs l).0.1 ≡ 0))

  -- The operations, on functions that were not made from an lvalue which is stored in place and needs
  -- its destructor: the object that a function owes is destroyed, once, when the function is destroyed
  -- or gets another object, and moving and swapping make and destroy nothing. After an assignment the
  -- function owes the new object only, and no object for `nullptr`; a function that was moved from
  -- owes none, and a swap exchanges what both owe.
  pub operations-Balances :
      (t : Kind C Args R) (value : C) (this rhs : Function C Args R) (l : Lifetimes)
      → is_forgotten t ≡ false
      → IsKept this
      → IsKept rhs
      → Accounts t value this rhs l
  unfolding move swap empty assign_nullptr assign_callable assign
  operations-Balances t value this rhs l h s s' =
      let made = construct-Balances t value l in
      let gone : Balances l (destroy this l) (λ k. owes k this) (λ _. 0) =
        destroy-Balances this l s in
      let gone' : Balances (construct t value l).1 (destroy this (construct t value l).1)
          (λ k. owes k this) (λ _. 0) =
        destroy-Balances this _ s in
      (
        (construct-IsKept t value l h, made),
        gone,
        (λ k. omega arith),
        (λ k. omega arith),
        (λ k. omega (arith, gone k)),
        (λ k. omega (arith, made k, gone' k)),
        (λ k. omega (arith, gone k)),
        λ k. (refl, refl, refl, refl, refl, refl, refl, refl),
      )

  forgotten_parts :
      (t : Kind C Args R)
      → is_forgotten t ≡ true
      → (insitu t ≡ true) × (t.lvalue ≡ true) × (t.trivial_destructor ≡ false)
  forgotten_parts t h = ground (arith, h)

  -- A function that is made from a callable object and destroyed leaves nothing that was made and not
  -- destroyed, exactly if it was not made from an lvalue of a type that is stored in place and needs
  -- its destructor.
  pub construct-destroy_iff :
      (t : Kind C Args R) (value : C) (l : Lifetimes)
      → Balances l (destroy (construct t value l).0 (construct t value l).1) (λ _. 0) (λ _. 0)
        ↔ (is_forgotten t ≡ false)
  unfolding construct destroy op_destroy
  construct-destroy_iff t value l = (
    (λ b. elim (Bool-cases (is_forgotten t)) [
      | inl e ↦ let (e₁, e₂, e₃) = forgotten_parts t e in ground (arith, b l.next, e₁, e₂, e₃)
      | inr e ↦ e
    ]),
    λ h k.
        let made = construct-Balances t value l k in
        omega (
          arith,
          made,
          destroy-Balances _ (construct t value l).1 (construct-IsKept t value l h) k,
        ),
  )
