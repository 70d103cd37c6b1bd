-- ===== src/Core/Hash/Bounds.antt =====
-- `fibhash<N>` is an index below `N`.
use bipolar.Common.{
  ℕ, zero, suc, ◌+◌, ◌-◌, ◌*◌, ◌/◌, ◌^◌, ◌<◌, ◌≡◌, Option, none, some, u64, arith, refl, ap, ◌∙◌,
  lt→ltb,
}
use bipolar.Common.Rings.{two_pow_pos}
use native.Mathlib.Nat.{div-lt_iff_lt-mul, two-pow-succ, mod-lt, add-mul}
use bipolar.Core.Hash.{levels, shift_bits, fibhash, hashed, shift_right}

levels_zero : (fuel : ℕ) → levels fuel 0 ≡ 0
unfolding levels
levels_zero zero = refl
levels_zero (suc fuel) = refl

-- The fuel is enough for a power of two.
levels-two_pow : (fuel k : ℕ) → k < fuel → levels fuel (2 ^ k) ≡ k + 1
unfolding levels
levels-two_pow zero k h = absurd (omega arith)
levels-two_pow (suc fuel) zero h = ground (arith, levels_zero fuel)
levels-two_pow (suc fuel) (suc k) h =
    let half : 2 ^ suc k / 2 ≡ 2 ^ k = omega (arith, two-pow-succ k) in
    let rest : levels fuel (2 ^ suc k / 2) ≡ k + 1 =
      ap (levels fuel) half ∙ levels-two_pow fuel k (omega arith) in
    ground (arith, rest, two_pow_pos (suc k))

shift_bits-two_pow : (k : ℕ) → k < 64 → shift_bits (2 ^ k) ≡ 64 - k
unfolding shift_bits
shift_bits-two_pow k h = omega (arith, levels-two_pow 64 k h)

two_pow-add : (a b c : ℕ) → c ≡ a + b → 2 ^ c ≡ 2 ^ a * 2 ^ b
two_pow-add zero b c h = let e : c ≡ b = omega (arith, h) in ap (λ n. 2 ^ n) e ∙ omega arith
two_pow-add (suc a) b c h =
    let rec : 2 ^ (a + b) ≡ 2 ^ a * 2 ^ b = two_pow-add a b (a + b) refl in
    let e : 2 ^ c ≡ 2 ^ (a + b) + 2 ^ (a + b) =
      ap (λ n. 2 ^ n) (omega arith) ∙ two-pow-succ (a + b) in
    let d : 2 ^ suc a * 2 ^ b ≡ 2 ^ a * 2 ^ b + 2 ^ a * 2 ^ b =
      ap (λ n. n * 2 ^ b) (two-pow-succ a) ∙ omega (arith, add-mul (2 ^ a) (2 ^ a) (2 ^ b)) in
    omega (arith, e, d, rec)

shifted_bound : (k m : ℕ) → k < 64 → u64 m / 2 ^ (64 - k) < 2 ^ k
shifted_bound k m h =
    let e : 2 ^ 64 ≡ 2 ^ k * 2 ^ (64 - k) = two_pow-add k (64 - k) 64 (omega arith) in
    let below : u64 m < 2 ^ 64 = mod-lt m (two_pow_pos 64) in
    (div-lt_iff_lt-mul (two_pow_pos (64 - k))).1 (omega (arith, e, below))

-- The index is defined and below the size, or undefined for the size 1.
abbrev pub Indexes : ℕ → Option ℕ → Type 0
Indexes k none = k ≡ 0
Indexes k (some i) = (0 < k) × (i < 2 ^ k)

shifted_Indexes :
    (k bits x : ℕ) → bits ≡ 64 - k → k < 64 → Indexes k (hashed bits x (shift_right x bits))
shifted_Indexes zero bits x e h = rw e refl
shifted_Indexes (suc k) bits x e h = rw e (
    rw (lt→ltb (64 - suc k) 64 (omega arith))
      (rw (lt→ltb (64 - suc k) 64 (omega arith)) (omega arith, shifted_bound (suc k) _ h)))

-- For a size that is a power of two of 64 bits, `fibhash` gives an index below the size, but for the
-- size 1 its shift by 64 bits is undefined.
pub fibhash-Indexes : (k x : ℕ) → k < 64 → Indexes k (fibhash (2 ^ k) x)
unfolding fibhash
fibhash-Indexes k x h = shifted_Indexes k _ x (shift_bits-two_pow k h) h
