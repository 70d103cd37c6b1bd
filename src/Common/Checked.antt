-- ===== src/Common/Checked.antt =====
-- Code with `assert`: a call that fails an assertion returns no value, so a chain of calls is a `do` block.
use mathlib.Core.Path.{◌≡◌, refl, subst}
use mathlib.Core.Bool.{Bool, true, false}
use mathlib.Core.Option.{Option, none, some}

infixl 5 ◌>>=◌ ◌>>◌
abbrev pub ◌>>=◌ {ℓ κ} : {A : Type ℓ} {B : Type κ} → Option A → (A → Option B) → Option B
none >>= f = none
some a >>= f = f a

abbrev pub ◌>>◌ {ℓ} : {B : Type ℓ} → Option (Unit {0}) → Option B → Option B
m >> k = m >>= λ _. k

-- `assert(b)`.
abbrev pub check : Bool → Option (Unit {0})
check true = some tt
check false = none

-- What holds of the value, if the call returns one.
abbrev pub Ensures {ℓ κ} : {A : Type ℓ} → (A → Type κ) → Option A → Type κ
Ensures P none = Unit
Ensures P (some a) = P a

pub ensured {ℓ κ} :
    {A : Type ℓ} (P : A → Type κ) {m : Option A} {a : A} → Ensures P m → m ≡ some a → P a
ensured P h e = subst (Ensures P) e h

-- The rules that follow a `do` block.
module _ {ℓ κ} {B : Type ℓ} (P : B → Type κ) where
  pub Ensures-bind {τ} :
      {A : Type τ} (m : Option A) (f : A → Option B)
      → ((a : A) → m ≡ some a → Ensures P (f a))
      → Ensures P (m >>= f)
  Ensures-bind none f h = tt
  Ensures-bind (some a) f h = h a refl

  pub Ensures-check :
      (b : Bool) (k : Option B) → (b ≡ true → Ensures P k) → Ensures P (check b >> k)
  Ensures-check false k h = tt
  Ensures-check true k h = h refl
