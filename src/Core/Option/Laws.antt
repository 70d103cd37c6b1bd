-- ===== src/Core/Option/Laws.antt =====
-- The methods of `Option` (bipolar/core/option.hpp) together: moves, swaps and combinators.
use bipolar.Common.{◌≡◌, refl, Bool, Option, none, some, ◌&&◌, Bool-cases, inl, inr}
use bipolar.Core.Option.{
  swap, take, move, assign_move, assign_copy, map, map_or, and_then, filter, value_or,
}

module _ {ℓ} {T : Type ℓ} where
  -- However the two objects stand, `swap` exchanges them; the move assignment from another object
  -- hands its contents over and leaves it empty, as do the move constructor and `take`; and the
  -- copy assignment gives the contents of its argument.
  pub exchange :
      (a b : Option T)
      → (swap a b ≡ (b, a))
        × (assign_move b a ≡ (b, none))
        × (move a ≡ (a, none))
        × (take a ≡ (a, none))
        × (assign_copy b a ≡ b)
  unfolding swap assign_move move take assign_copy
  exchange none none = (refl, refl, refl, refl, refl)
  exchange none (some y) = (refl, refl, refl, refl, refl)
  exchange (some x) none = (refl, refl, refl, refl, refl)
  exchange (some x) (some y) = (refl, refl, refl, refl, refl)

  -- The combinators in terms of one another: a chain of `and_then` is one `and_then`; `map` and
  -- `filter` are chains with a step that always, or on a test, gives the value; filtering twice is
  -- filtering by both tests; and a default read behind `map` is `map_or`.
  pub chain_laws {κ τ} :
      {U : Type κ} {V : Type τ} (f : T → Option U) (g : U → Option V) (h : T → U) (d : U)
      (p q : T → Bool) (o : Option T)
      → (and_then g (and_then f o) ≡ and_then (λ x. and_then g (f x)) o)
        × (map h o ≡ and_then (λ x. some (h x)) o)
        × (filter p o ≡ and_then (λ x. filter p (some x)) o)
        × (filter q (filter p o) ≡ filter (λ x. p x && q x) o)
        × (value_or d (map h o) ≡ map_or d h o)
  unfolding and_then map filter value_or map_or
  chain_laws f g h d p q none = (refl, refl, refl, refl, refl)
  chain_laws f g h d p q (some x) = (refl, refl, refl, twice, refl)
    where
      twice : filter q (filter p (some x)) ≡ filter (λ y. p y && q y) (some x)
      twice = elim (Bool-cases (p x)) [ inl e ↦ rw e | inr e ↦ rw e ]
