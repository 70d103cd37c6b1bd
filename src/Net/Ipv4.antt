-- ===== src/Net/Ipv4.antt =====
-- bipolar/net/ip_address.hpp: `IPv4Address`.
pub mod Laws
use bipolar.Common.{ℕ, ◌+◌, ◌*◌, Bool, true, false, not, ltb, ◌==◌, if◌then◌else◌}
use bipolar.Core.Byteorder.{hton32, ntoh32}
use bipolar.Net.Storage.{IPv4Address, IPv6Address, bytes, words, zeros, load32, store32}

module _ (big_endian : Bool) where
  -- `IPv4Address(std::uint32_t)`.
  unfoldable pub of_long : ℕ → IPv4Address
  unfolding store32
  of_long ip = store32 big_endian ip

  -- `IPv4Address(a, b, c, d)`: the bits of the four shifted octets are disjoint, so that their union
  -- is their sum.
  unfoldable pub of_octets : ℕ → ℕ → ℕ → ℕ → IPv4Address
  unfolding of_long hton32
  of_octets a b c d = of_long (hton32 big_endian (a * 16777216 + b * 65536 + c * 256 + d))

  unfoldable pub to_long : IPv4Address → ℕ
  unfolding load32
  to_long addr = load32 big_endian addr

  unfoldable pub is_unspecified : IPv4Address → Bool
  unfolding load32
  is_unspecified addr = load32 big_endian addr == 0

  unfoldable pub eq : IPv4Address → IPv4Address → Bool
  unfolding to_long
  eq lhs rhs = to_long lhs == to_long rhs

  unfoldable pub lt : IPv4Address → IPv4Address → Bool
  unfolding to_long ntoh32
  lt lhs rhs = ltb (ntoh32 big_endian (to_long lhs)) (ntoh32 big_endian (to_long rhs))

  unfoldable pub ne : IPv4Address → IPv4Address → Bool
  unfolding eq
  ne lhs rhs = not (eq lhs rhs)

  unfoldable pub gt : IPv4Address → IPv4Address → Bool
  unfolding lt
  gt lhs rhs = lt rhs lhs

  unfoldable pub le : IPv4Address → IPv4Address → Bool
  unfolding gt
  le lhs rhs = not (gt lhs rhs)

  unfoldable pub ge : IPv4Address → IPv4Address → Bool
  unfolding lt
  ge lhs rhs = not (lt lhs rhs)

unfoldable pub is_loopback : IPv4Address → Bool
is_loopback addr = addr.b0 == 127

unfoldable pub octets : IPv4Address → ℕ × ℕ × ℕ × ℕ
octets addr = (addr.b0, addr.b1, addr.b2, addr.b3)

unfoldable pub to_ipv6_compatible : IPv4Address → IPv6Address
to_ipv6_compatible addr = words zeros zeros zeros addr

unfoldable pub to_ipv6_mapped : IPv4Address → IPv6Address
to_ipv6_mapped addr = words zeros zeros (bytes 0 0 255 255) addr
