-- ===== src/Core/Examples.antt =====
-- The theorems about bipolar/core at concrete inputs, whose values are Booleans and numbers.
mod Functions
mod Guards
use bipolar.Common.{
  ◌≡◌, refl, ◌↔◌, ◌⊎◌, inl, inr, Bool, true, false, Option, if◌then◌else◌, none, some,
}
use bipolar.Common.Outcome.{returns, throws}
use bipolar.Core.Result.{Result, pending, ok, err, is_pending, is_error, same, eq}
use bipolar.Core.Result.Equality.{Mixed, eq-true_iff, eq-throws_iff}
use bipolar.Core.Option.{less}
use bipolar.Core.Option.Order.{IsOrder}

same_iff : (x y : Bool) → (same x y ≡ true) ↔ (x ≡ y)
same_iff true true = (λ e. refl, λ e. refl)
same_iff true false = (λ e. cc, λ e. cc)
same_iff false true = (λ e. cc, λ e. cc)
same_iff false false = (λ e. refl, λ e. refl)

less-IsOrder : IsOrder less
less-IsOrder = record { irrefl = irr; trans = tr; total = tot }
  where
    irr : (x : Bool) → less x x ≡ false
    irr true = refl
    irr false = refl

    tr : (x y z : Bool) → less x y ≡ true → less y z ≡ true → less x z ≡ true
    tr true y z p q = p
    tr false true true p q = refl
    tr false true false p q = absurd (cc)
    tr false false z p q = q

    tot : (x y : Bool) → (less x y ≡ true) ⊎ (x ≡ y) ⊎ (less y x ≡ true)
    tot true true = inr (inl refl)
    tot true false = inr (inr refl)
    tot false true = inl refl
    tot false false = inr (inl refl)

abbrev good : Result Bool Bool
good = ok true

abbrev bad : Result Bool Bool
bad = err false

abbrev unset : Result Bool Bool
unset = pending

abbrev yes : Option Bool
yes = some true

abbrev no : Option Bool
no = some false

abbrev keep : Bool → Option Bool
keep b = if b then some b else none

-- A value equals an error.
eq-true_iff_example :
    (eq same same good bad ≡ returns true)
    ↔ (((good ≡ bad) × (is_pending good ≡ false)) ⊎ Mixed same same same_iff same_iff good bad)
eq-true_iff_example = eq-true_iff same same same_iff same_iff good bad

-- Two pending results cannot be compared.
eq-throws_iff_example : (eq same same unset unset ≡ throws none) ↔ (
    ((is_pending unset ≡ true) × (is_error unset ≡ false))
    ⊎ ((is_pending unset ≡ true) × (is_error unset ≡ false)))
eq-throws_iff_example = eq-throws_iff same same same_iff same_iff unset unset
