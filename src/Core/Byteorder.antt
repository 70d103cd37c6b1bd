-- ===== src/Core/Byteorder.antt =====
-- bipolar/core/byteorder.hpp: host and network byte order. A number of w bits is a natural number
-- below 2^w. The compiler's `__builtin_bswap` functions reverse the bytes of a number, and
-- `__BYTE_ORDER__`, which decides `is_big_endian`, is a parameter.
pub mod Laws
use bipolar.Common.{ℕ, ◌+◌, ◌*◌, ◌/◌, ◌%◌, Bool, true, false, if◌then◌else◌}

-- The number with these four bytes, the most significant one first.
abbrev pub join : ℕ → ℕ → ℕ → ℕ → ℕ
join a b c d = a * 16777216 + b * 65536 + c * 256 + d

abbrev pub split : ℕ → ℕ × ℕ × ℕ × ℕ
split v = (v / 16777216 % 256, v / 65536 % 256, v / 256 % 256, v % 256)

abbrev pub bswap16 : ℕ → ℕ
bswap16 v = v % 256 * 256 + v / 256 % 256

unfoldable pub bswap32 : ℕ → ℕ
bswap32 v = let (a, b, c, d) = split v in join d c b a

unfoldable pub bswap64 : ℕ → ℕ
unfolding bswap32
bswap64 v = bswap32 (v % 4294967296) * 4294967296 + bswap32 (v / 4294967296 % 4294967296)

module _ (big_endian : Bool) where
  unfoldable pub hton8 : ℕ → ℕ
  hton8 v = v

  unfoldable pub hton16 : ℕ → ℕ
  hton16 v = if big_endian then v else bswap16 v

  unfoldable pub hton32 : ℕ → ℕ
  unfolding bswap32
  hton32 v = if big_endian then v else bswap32 v

  unfoldable pub hton64 : ℕ → ℕ
  unfolding bswap64
  hton64 v = if big_endian then v else bswap64 v

  unfoldable pub ntoh8 : ℕ → ℕ
  ntoh8 v = v

  unfoldable pub ntoh16 : ℕ → ℕ
  ntoh16 v = if big_endian then v else bswap16 v

  unfoldable pub ntoh32 : ℕ → ℕ
  unfolding bswap32
  ntoh32 v = if big_endian then v else bswap32 v

  unfoldable pub ntoh64 : ℕ → ℕ
  unfolding bswap64
  ntoh64 v = if big_endian then v else bswap64 v
