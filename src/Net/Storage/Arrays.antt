-- ===== src/Net/Storage/Arrays.antt =====
-- `==` and `<` of arrays of integers.
use bipolar.Common.{ℕ, true, false, ==_iff, List, [], ◌∷◌, ◌≡◌, refl, ◌↔◌, ◌⊎◌, inl, inr, arith}
use bipolar.Core.Option.Order.{IsOrder}
use bipolar.Net.Storage.{less_array, equal_array}

pub equal_array_iff : (xs ys : List ℕ) → (equal_array xs ys ≡ true) ↔ (xs ≡ ys)
unfolding equal_array
equal_array_iff [] [] = (λ h. refl, λ h. refl)
equal_array_iff [] (y ∷ ys) = (λ h. absurd (cc), λ h. absurd (cc))
equal_array_iff (x ∷ xs) [] = (λ h. absurd (cc), λ h. absurd (cc))
equal_array_iff (x ∷ xs) (y ∷ ys) =
    let rest = equal_array_iff xs ys in
    let same = ==_iff x y in (λ h. ground (arith, rest, same), λ h. ground (arith, rest, same))

irreflexive : (xs : List ℕ) → less_array xs xs ≡ false
unfolding less_array
irreflexive [] = refl
irreflexive (x ∷ xs) = ground (arith, irreflexive xs)

transitive :
    (xs ys zs : List ℕ)
    → less_array xs ys ≡ true
    → less_array ys zs ≡ true
    → less_array xs zs ≡ true
unfolding less_array
transitive xs ys [] p q = absurd (ground arith)
transitive [] ys (z ∷ zs) p q = refl
transitive (x ∷ xs) [] (z ∷ zs) p q = absurd (cc)
transitive (x ∷ xs) (y ∷ ys) (z ∷ zs) p q = ground (arith, transitive xs ys zs)

total : (xs ys : List ℕ) → (less_array xs ys ≡ true) ⊎ (xs ≡ ys) ⊎ (less_array ys xs ≡ true)
unfolding less_array
total [] [] = inr (inl refl)
total [] (y ∷ ys) = inl refl
total (x ∷ xs) [] = inr (inr refl)
total (x ∷ xs) (y ∷ ys) = ground (arith, total xs ys)

pub less_array-IsOrder : IsOrder less_array
less_array-IsOrder = record { irrefl = irreflexive; trans = transitive; total = total }
