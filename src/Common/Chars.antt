-- ===== src/Common/Chars.antt =====
-- What the code uses of `std::string_view`, `std::from_chars` and `std::to_chars`. A text is a list of
-- character codes.
use bipolar.Common.Tests.{◌==◌, if◌then◌else◌, ltb, leb, Bool-cases}
use bipolar.Common.Lists.{length, drop}
use Prim.Native.Nat.{ℕ, zero, suc, ◌+◌, ◌-◌, ◌*◌, ◌/◌, ◌%◌, ◌^◌, ◌≤◌, ◌<◌}
use mathlib.Core.Path.{◌≡◌, refl, ap, ◌∙◌}
use mathlib.Core.Bool.{Bool, true, ◌&&◌}
use mathlib.Core.Option.{Option, none, some}
use mathlib.Core.List.{List, [], ◌∷◌, ◌++◌}
use mathlib.Core.Logic.{◌⊎◌, inl, inr}
use native.Mathlib.Omega.{arith}
use native.Mathlib.Nat.{pow-suc}

abbrev pub Text : Type 0
Text = List ℕ

abbrev pub take : ℕ → Text → Text
take zero s = []
take (suc n) [] = []
take (suc n) (c ∷ s) = c ∷ take n s

-- The position of the last c.
abbrev pub rfind : ℕ → Text → Option ℕ
rfind c [] = none
rfind c (x ∷ s) = elim (rfind c s) [
  | some i ↦ some (suc i)
  | none ↦ if x == c then some 0 else none
]

abbrev pub front : Text → ℕ
front [] = 0
front (c ∷ s) = c

abbrev pub back : Text → ℕ
back [] = 0
back (c ∷ []) = c
back (c ∷ d ∷ s) = back (d ∷ s)

-- The characters before the first null character.
abbrev pub c_string : Text → Text
c_string [] = []
c_string (c ∷ s) = if c == 0 then [] else c ∷ c_string s

abbrev pub is_digit : ℕ → Bool
is_digit c = leb 48 c && leb c 57

abbrev pub all_digits : Text → Bool
all_digits [] = true
all_digits (c ∷ s) = is_digit c && all_digits s

-- `from_chars` on digits, from the number read before.
unfoldable pub from_chars : Text → ℕ → ℕ
from_chars [] n = n
from_chars (c ∷ s) n = from_chars s (n * 10 + (c - 48))

-- `to_chars` in front of a text, for a number of at most `fuel` digits.
unfoldable pub to_chars : ℕ → ℕ → Text → Text
to_chars zero n s = s
to_chars (suc fuel) n s =
    if ltb n 10 then (48 + n) ∷ s else to_chars fuel (n / 10) ((48 + n % 10) ∷ s)

zero_or_pos : (n : ℕ) → (n ≡ 0) ⊎ (0 < n)
zero_or_pos n = ground arith

pub from_chars-to_chars :
    (fuel n : ℕ) (s : Text)
    → 0 < fuel
    → n < 10 ^ fuel
    → from_chars (to_chars fuel n s) 0 ≡ from_chars s n
unfolding from_chars to_chars
from_chars-to_chars zero n s pos lt = absurd (omega arith)
from_chars-to_chars (suc fuel) n s pos lt =
    let power = pow-suc 10 fuel in
    elim (Bool-cases (ltb n 10)) [
      | inl e ↦ let last : 0 * 10 + (48 + n - 48) ≡ n = omega arith in rw e (ap (from_chars s) last)
      | inr e ↦
          let large : 10 ≤ n = ground arith in
          let some_left : 0 < fuel = elim (zero_or_pos fuel) [
            | inl z ↦ absurd (omega (arith, lt, large, ap (λ k. 10 ^ suc k) z))
            | inr p ↦ p
          ] in
          let whole : n / 10 * 10 + (48 + n % 10 - 48) ≡ n = omega arith in
          rw e (
            from_chars-to_chars fuel (n / 10) ((48 + n % 10) ∷ s) some_left
              (omega (arith, lt, power))
            ∙ ap (from_chars s) whole)
    ]

pub all_digits-to_chars :
    (fuel n : ℕ) (s : Text) → all_digits s ≡ true → all_digits (to_chars fuel n s) ≡ true
unfolding to_chars
all_digits-to_chars zero n s h = h
all_digits-to_chars (suc fuel) n s h =
    ground (arith, all_digits-to_chars fuel (n / 10) ((48 + n % 10) ∷ s))

pub length-to_chars : (fuel n : ℕ) (s : Text) → length (to_chars fuel n s) ≤ fuel + length s
unfolding to_chars
length-to_chars zero n s = omega arith
length-to_chars (suc fuel) n s = ground (arith, length-to_chars fuel (n / 10) ((48 + n % 10) ∷ s))

pub rfind_digits : (s : Text) → all_digits s ≡ true → rfind 58 s ≡ none
rfind_digits [] h = refl
rfind_digits (c ∷ s) h = ground (arith, rfind_digits s)

-- The last c of a text that goes on without a c.
pub rfind-append : (a s : Text) (c : ℕ) → rfind c s ≡ none → rfind c (a ++ c ∷ s) ≡ some (length a)
rfind-append [] s c h = ground (arith, h)
rfind-append (x ∷ a) s c h = ground (arith, rfind-append a s c h)

pub take-length : (a s : Text) → take (length a) (a ++ s) ≡ a
take-length [] s = refl
take-length (x ∷ a) s = ap (λ y. x ∷ y) (take-length a s)

pub drop-length : (a s : Text) (c : ℕ) → drop (length a + 1) (a ++ c ∷ s) ≡ s
drop-length [] s c = refl
drop-length (x ∷ a) s c =
    let e : suc (length a) + 1 ≡ suc (length a + 1) = omega arith in
    ap (λ k. drop k (x ∷ a ++ c ∷ s)) e ∙ drop-length a s c

pub back-append : (a : Text) (c : ℕ) → back (a ++ c ∷ []) ≡ c
back-append [] c = refl
back-append (x ∷ []) c = refl
back-append (x ∷ y ∷ a) c = back-append (y ∷ a) c
