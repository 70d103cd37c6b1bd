-- ===== src/Core/Option/Order.antt =====
-- The comparisons of `Option` (bipolar/core/option.hpp).
use bipolar.Common.{◌≡◌, refl, ap, ◌↔◌, ◌⊎◌, inl, inr, Bool, true, false, Option, none, some, arith}
use bipolar.Core.Option.{
  eq, ne, lt, gt, le, ge, eq_none, ne_none, lt_none, gt_none, le_none, ge_none, none_eq, none_ne,
  none_lt, none_gt, none_le, none_ge,
}

-- A test `lt` that orders its type strictly and totally.
pub record IsOrder {ℓ} {T : Type ℓ} (less : T → T → Bool) : Type ℓ where
  pub irrefl : (x : T) → less x x ≡ false
  pub trans : (x y z : T) → less x y ≡ true → less y z ≡ true → less x z ≡ true
  pub total : (x y : T) → (less x y ≡ true) ⊎ (x ≡ y) ⊎ (less y x ≡ true)

module _ {ℓ} {T : Type ℓ} where
  -- If `<` orders the value type strictly and totally, then `<` of the options does so too, with
  -- the empty option below all others.
  pub lt-IsOrder :
      (ltT : T → T → Bool)
      → IsOrder ltT
      → IsOrder (lt ltT)
        × ((o : Option T) → lt ltT o none ≡ false)
        × ((x : T) → lt ltT none (some x) ≡ true)
  unfolding lt
  lt-IsOrder ltT v = (record { irrefl = irr; trans = tr; total = tot }, low, λ x. refl)
    where
      irr : (o : Option T) → lt ltT o o ≡ false
      irr none = refl
      irr (some x) = v.irrefl x

      tr : (a b c : Option T) → lt ltT a b ≡ true → lt ltT b c ≡ true → lt ltT a c ≡ true
      tr none none none p q = p
      tr none none (some z) p q = refl
      tr none (some y) none p q = q
      tr none (some y) (some z) p q = refl
      tr (some x) none none p q = p
      tr (some x) none (some z) p q = absurd (cc)
      tr (some x) (some y) none p q = q
      tr (some x) (some y) (some z) p q = v.trans x y z p q

      tot : (a b : Option T) → (lt ltT a b ≡ true) ⊎ (a ≡ b) ⊎ (lt ltT b a ≡ true)
      tot none none = inr (inl refl)
      tot none (some y) = inl refl
      tot (some x) none = inr (inr refl)
      tot (some x) (some y) = elim (v.total x y) [
        | inl h ↦ inl h
        | inr (inl h) ↦ inr (inl (ap some h))
        | inr (inr h) ↦ inr (inr h)
      ]

      low : (o : Option T) → lt ltT o none ≡ false
      low none = refl
      low (some x) = refl

  -- If `==` decides equality of the values, `==` of the options decides equality of the options.
  pub eq_iff :
      (eqT : T → T → Bool)
      → ((x y : T) → (eqT x y ≡ true) ↔ (x ≡ y))
      → (a b : Option T) → (eq eqT a b ≡ true) ↔ (a ≡ b)
  unfolding eq
  eq_iff eqT h none none = (λ e. refl, λ e. refl)
  eq_iff eqT h none (some y) = (λ e. cc, λ e. cc)
  eq_iff eqT h (some x) none = (λ e. cc, λ e. cc)
  eq_iff eqT h (some x) (some y) = (λ e. ap some ((h x y).0 e), λ e. (h x y).1 (ground arith))

  -- Each of the twelve comparisons with `None` agrees with the comparison with an empty option.
  pub none_comparisons :
      (eqT ltT : T → T → Bool) (o : Option T)
      → (eq_none o ≡ eq eqT o none)
        × (ne_none o ≡ ne eqT o none)
        × (lt_none o ≡ lt ltT o none)
        × (gt_none o ≡ gt ltT o none)
        × (le_none o ≡ le ltT o none)
        × (ge_none o ≡ ge ltT o none)
        × (none_eq o ≡ eq eqT none o)
        × (none_ne o ≡ ne eqT none o)
        × (none_lt o ≡ lt ltT none o)
        × (none_gt o ≡ gt ltT none o)
        × (none_le o ≡ le ltT none o)
        × (none_ge o ≡ ge ltT none o)
  unfolding eq ne lt gt le ge eq_none ne_none lt_none gt_none le_none ge_none none_eq none_ne
      none_lt none_gt none_le none_ge
  none_comparisons eqT ltT none =
      (refl, refl, refl, refl, refl, refl, refl, refl, refl, refl, refl, refl)
  none_comparisons eqT ltT (some x) =
      (refl, refl, refl, refl, refl, refl, refl, refl, refl, refl, refl, refl)
