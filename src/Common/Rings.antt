-- ===== src/Common/Rings.antt =====
-- The index arithmetic of a ring: 32-bit positions that wrap, and their place under a mask.
use Prim.Native.Nat.{
  ℕ, zero, suc, ◌+◌, ◌-◌, ◌*◌, ◌/◌, ◌%◌, ◌^◌, ◌≤◌, ◌<◌, ◌∣◌, bit_and, bit_and-bitwise, digits, min,
}
use mathlib.Core.Path.{◌≡◌, refl, sym, ap, ◌∙◌, subst}
use mathlib.Core.Logic.{◌≢◌, ◌⊎◌, inl, inr}
use native.Mathlib.Omega.{arith}
use native.Mathlib.Nat.{
  mod-lt, mod-eq_of_lt, div-add-mod, add-mul-mod_self_left, dvd_refl, dvd-mul_right_of_dvd, pow-suc,
  mod-mod_of_dvd, mod-eq-sub-mod, two-pow-succ,
}

-- The remainder by 2m from that of the half by m.
mod_double : (a m : ℕ) → 0 < m → a % (m + m) ≡ a / 2 % m * 2 + a % 2
mod_double a m p =
    let q = a / 2 in
    let s = q % m in
    let t = q / m in
    let e : a ≡ (s * 2 + a % 2) + (m + m) * t = omega (arith, div-add-mod q m) in
    ap (λ x. x % (m + m)) e
    ∙ add-mul-mod_self_left (s * 2 + a % 2) (m + m) t
    ∙ mod-eq_of_lt (omega (arith, mod-lt q p))

zero_mod : (m : ℕ) → 0 < m → 0 % m ≡ 0
zero_mod m p = mod-eq_of_lt p

digits_empty : (n a : ℕ) → digits (λ b. zero) min n a 0 ≡ 0
digits_empty zero a = refl
digits_empty (suc n) zero = refl
digits_empty (suc n) (suc a) = omega (arith, digits_empty n (suc a / 2))

min_one : (x : ℕ) → x < 2 → min x 1 ≡ x
min_one zero h = refl
min_one (suc zero) h = refl
min_one (suc (suc x)) h = absurd (omega arith)

pub two_pow_pos : (k : ℕ) → 0 < 2 ^ k
two_pow_pos zero = omega arith
two_pow_pos (suc k) = omega (arith, two_pow_pos k, two-pow-succ k)

digits_mask : (k n a : ℕ) → a ≤ n → digits (λ b. zero) min n a (2 ^ k - 1) ≡ a % 2 ^ k
digits_mask k zero zero le = sym (zero_mod (2 ^ k) (two_pow_pos k))
digits_mask k zero (suc a) le = absurd (omega arith)
digits_mask k (suc n) zero le = sym (zero_mod (2 ^ k) (two_pow_pos k))
digits_mask zero (suc n) (suc a) le = digits_empty (suc n) (suc a) ∙ omega arith
digits_mask (suc k) (suc n) (suc a) le =
    let m = 2 ^ k in
    let p = two_pow_pos k in
    let half : (2 ^ suc k - 1) / 2 ≡ m - 1 = omega (arith, two-pow-succ k) in
    let odd : (2 ^ suc k - 1) % 2 ≡ 1 = omega (arith, two-pow-succ k) in
    let rec = digits_mask k n (suc a / 2) (omega arith) in
    rw (half, odd, rec, min_one (suc a % 2) (omega arith), two-pow-succ k)
      (sym (mod_double (suc a) m p))

-- A mask of k ones leaves the remainder by 2^k.
pub bit_and_mask : (k a : ℕ) → bit_and a (2 ^ k - 1) ≡ a % 2 ^ k
bit_and_mask k a = (λ i. bit_and-bitwise a (2 ^ k - 1) i) ∙ digits_mask k a a (omega arith)

lt-cases : (a b : ℕ) → (a < b) ⊎ (b ≤ a)
lt-cases a b = ground arith

-- Places before the ring comes round are different.
pub place_apart : (m p d : ℕ) → 0 < d → d < m → (p + d) % m ≢ p % m
place_apart m p d pos lt =
    let s = p % m in
    let q = p / m in
    let small : s < m = mod-lt p {m = m} (omega arith) in
    let e : p + d ≡ (s + d) + m * q = omega (arith, div-add-mod p m) in
    let f : (p + d) % m ≡ (s + d) % m = ap (λ x. x % m) e ∙ add-mul-mod_self_left (s + d) m q in
    let back : m ≤ s + d → (s + d) % m ≡ s + d - m =
      λ le. mod-eq-sub-mod le ∙ mod-eq_of_lt (omega arith) in
    λ same. elim (lt-cases (s + d) m) [
      | inl lt' ↦ absurd (omega (arith, f, same, mod-eq_of_lt lt'))
      | inr le ↦ absurd (omega (arith, f, same, back le))
    ]

pow_dvd : (k d : ℕ) → 2 ^ k ∣ 2 ^ (d + k)
pow_dvd k zero = subst (λ n. 2 ^ k ∣ 2 ^ n) (omega arith) (dvd_refl (2 ^ k))
pow_dvd k (suc d) =
    let one_more : suc (d + k) ≡ suc d + k = omega arith in
    subst (λ n. 2 ^ k ∣ n) (sym (pow-suc 2 (d + k)) ∙ ap (λ n. 2 ^ n) one_more)
      (dvd-mul_right_of_dvd (2 ^ k) (pow_dvd k d) 2)

-- A ring of 2^k entries under 32-bit positions: wrapping does not change the place.
pub place_wrap : (k p : ℕ) → k ≤ 32 → p % 2 ^ 32 % 2 ^ k ≡ p % 2 ^ k
place_wrap k p le =
    let whole : 32 - k + k ≡ 32 = omega arith in
    mod-mod_of_dvd (2 ^ k) p (subst (λ n. 2 ^ k ∣ 2 ^ n) whole (pow_dvd k (32 - k)))
