-- ===== src/Core/FunctionRef/Aliasing.antt =====
-- What a call through a `FunctionRef` may change, and which calls are independent.
use bipolar.Common.{ℕ, Option, none, some, ◌≡◌, ◌≢◌, refl, sym, arith}
use bipolar.Common.Outcome.{Outcome}
use bipolar.Core.FunctionRef.{Store, set, FunctionRef, invoked, make_call, construct, op_call}

-- An object other than the one that was written is as before, and that one is as it was written.
set_other :
    {C : Type 0} (a b : ℕ) (o : Option C) (store : Store C) → b ≢ a → set a o store b ≡ store b
set_other a b o store h = ground arith

set_same : {C : Type 0} (a : ℕ) (o : Option C) (store : Store C) → set a o store a ≡ o
set_same a o store = ground arith

set_comm_at :
    {C : Type 0} (a b : ℕ) (o o' : Option C) (store : Store C) (c : ℕ)
    → a ≢ b
    → set b o' (set a o store) c ≡ set a o (set b o' store) c
set_comm_at a b o o' store c h = ground arith

set_comm :
    {C : Type 0} (a b : ℕ) (o o' : Option C) (store : Store C)
    → a ≢ b
    → set b o' (set a o store) ≡ set a o (set b o' store)
set_comm a b o o' store h = λ i c. set_comm_at a b o o' store c h i

module _ {C R : Type 0} where
  abbrev paired :
      Outcome R → Option (Outcome R × Store C) → Option (Outcome R × Outcome R × Store C)
  paired r none = none
  paired r (some (r', store)) = some (r, r', store)

  abbrev exchanged :
      Option (Outcome R × Outcome R × Store C) → Option (Outcome R × Outcome R × Store C)
  exchanged none = none
  exchanged (some (r, r', store)) = some (r', r, store)

module _ {C Args R : Type 0} where
  -- The effect of one call: the object that is referred to is as the call leaves it, and every other
  -- object is as before.
  abbrev Calls :
      (C → Args → Outcome R × C) → ℕ → Args → Store C → Option (Outcome R × Store C) → Type 0
  Calls invoke f args store none = store f ≡ none
  Calls invoke f args store (some (r, store')) =
      ((value : C) × (store f ≡ some value)
        × (r ≡ (invoke value args).0)
        × (store' f ≡ some (invoke value args).1))
      × ((b : ℕ) → b ≢ f → store' b ≡ store b)

  invoked-Calls :
      (invoke : C → Args → Outcome R × C) (f : ℕ) (args : Args) (store : Store C) (o : Option C)
      → store f ≡ o
      → Calls invoke f args store (invoked invoke store f args o)
  invoked-Calls invoke f args store none h = h
  invoked-Calls invoke f args store (some value) h =
      let (r, value') = invoke value args in
      ((value, h, refl, set_same f (some value') store), λ b n. set_other f b (some value') store n)

  -- A call through a reference to a callable object is undefined if the object is no longer alive.
  -- Else it returns what the call of the object returns, the object is changed as that call changes
  -- it, whatever else refers to it, and no other object is changed.
  op_call-Calls :
      (invoke : C → Args → Outcome R × C) (f : ℕ) (args : Args) (store : Store C)
      → Calls invoke f args store (op_call (construct invoke f) args store)
  unfolding op_call construct make_call
  op_call-Calls invoke f args store = invoked-Calls invoke f args store (store f) refl

  -- A second call, after the first: what both return, and the store after them.
  abbrev followed :
      Option (Outcome R × Store C)
      → FunctionRef C Args R
      → Args
      → Option (Outcome R × Outcome R × Store C)
  followed none g args = none
  followed (some (r, store)) g args = paired r (op_call g args store)

  commute_parts :
      (invoke invoke' : C → Args → Outcome R × C) (f g : ℕ) (a b : Args) (store : Store C)
      (o o' : Option C)
      → f ≢ g
      → store f ≡ o
      → store g ≡ o'
      → followed (invoked invoke store f a o) (construct invoke' g) b
        ≡ exchanged (followed (invoked invoke' store g b o') (construct invoke f) a)
  unfolding op_call construct make_call
  commute_parts invoke invoke' f g a b store none none n p q = refl
  commute_parts invoke invoke' f g a b store none (some w) n p q =
      rw (set_other g f (some (invoke' w b).1) store n, p) refl
  commute_parts invoke invoke' f g a b store (some v) none n p q =
      rw (set_other f g (some (invoke v a).1) store (λ e. n (sym e)), q) refl
  commute_parts invoke invoke' f g a b store (some v) (some w) n p q =
      rw
        (
          set_other g f (some (invoke' w b).1) store n,
          p,
          set_other f g (some (invoke v a).1) store (λ e. n (sym e)),
          q,
          set_comm f g (some (invoke v a).1) (some (invoke' w b).1) store n,
        )
        refl

  -- Calls through references to two different callable objects commute: in either order both return
  -- the same and leave the same objects, or one of the calls is undefined in either order.
  calls_commute :
      (invoke invoke' : C → Args → Outcome R × C) (f g : ℕ) (a b : Args) (store : Store C)
      → f ≢ g
      → followed (op_call (construct invoke f) a store) (construct invoke' g) b
        ≡ exchanged (followed (op_call (construct invoke' g) b store) (construct invoke f) a)
  unfolding op_call construct make_call
  calls_commute invoke invoke' f g a b store n =
      commute_parts invoke invoke' f g a b store (store f) (store g) n refl refl
