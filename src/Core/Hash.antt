-- ===== src/Core/Hash.antt =====
-- bipolar/core/hash.hpp: `fibhash`, and the index of bipolar/sync/spinlock_pool.hpp.
pub mod Bounds
use bipolar.Common.{
  ℕ, zero, suc, ◌+◌, ◌-◌, ◌*◌, ◌/◌, ◌^◌, Bool, true, false, ◌==◌, ltb, if◌then◌else◌, Option, none,
  some, u64,
}
use Prim.Native.Nat.{bit_xor}

-- `FibHelper<N>::log2 + 1`: the instances for `N`, `N / 2` and so on down to 0. The fuel is the number of
-- bits of `N`.
unfoldable pub levels : ℕ → ℕ → ℕ
levels zero n = 0
levels (suc fuel) n = let rest = levels fuel (n / 2) in if n == 0 then 0 else rest + 1

-- For `N` above 0. `std::uint64_t` has 64 bits.
unfoldable pub shift_bits : ℕ → ℕ
unfolding levels
shift_bits n = 64 + 1 - levels 64 n

-- The shift of a number of 64 bits by 64 bits is undefined, a result `none`.
abbrev pub shift_right : ℕ → ℕ → Option ℕ
shift_right x bits = if ltb bits 64 then some (x / 2 ^ bits) else none

abbrev pub multiplier : ℕ
multiplier = 11400714819323198483

abbrev hashed : ℕ → ℕ → Option ℕ → Option ℕ
hashed bits x none = none
hashed bits x (some y) = shift_right (u64 (multiplier * bit_xor x y)) bits

unfoldable pub fibhash : ℕ → ℕ → Option ℕ
unfolding shift_bits
fibhash n x = let bits = shift_bits n in hashed bits x (shift_right x bits)
