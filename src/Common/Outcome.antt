-- ===== src/Common/Outcome.antt =====
-- Calls that may throw or fail an assertion: a value, the exception with its description, if it has
-- one, or `aborts`.
use Prim.Native.String.{String}
use mathlib.Core.Path.{◌≡◌, refl}
use mathlib.Core.Bool.{Bool, true, false}
use mathlib.Core.Option.{Option}

pub data Outcome {ℓ} (A : Type ℓ) : Type ℓ where
  returns : A → Outcome A
  throws : Option String → Outcome A
  aborts : Outcome A

infixl 5 ◌>>=◌
abbrev pub ◌>>=◌ {ℓ κ} : {A : Type ℓ} {B : Type κ} → Outcome A → (A → Outcome B) → Outcome B
returns a >>= f = f a
throws s >>= f = throws s
aborts >>= f = aborts

-- `assert(b)`.
abbrev pub assert : Bool → Outcome (Unit {0})
assert true = returns tt
assert false = aborts

infixl 5 ◌>>◌
abbrev pub ◌>>◌ {ℓ} : {B : Type ℓ} → Outcome (Unit {0}) → Outcome B → Outcome B
m >> k = m >>= λ _. k

pub >>=_assoc {ℓ κ τ} :
    {A : Type ℓ} {B : Type κ} {C : Type τ} (m : Outcome A) (f : A → Outcome B) (g : B → Outcome C)
    → ((m >>= f) >>= g) ≡ (m >>= λ a. f a >>= g)
>>=_assoc (returns a) f g = refl
>>=_assoc (throws s) f g = refl
>>=_assoc aborts f g = refl

-- Inversion of a successful bind.
pub >>=-eq-returns {ℓ κ} :
    {A : Type ℓ} {B : Type κ} (m : Outcome A) (f : A → Outcome B) {b : B}
    → (m >>= f) ≡ returns b
    → (a : A) × (m ≡ returns a) × (f a ≡ returns b)
>>=-eq-returns (returns a) f h = (a, refl, h)
>>=-eq-returns (throws s) f h = cc
>>=-eq-returns aborts f h = cc

-- Two outcomes that return the same value.
pub same_value {ℓ} : {A : Type ℓ} {a b : A} → returns a ≡ returns b → a ≡ b
same_value h = cc
