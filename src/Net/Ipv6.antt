-- ===== src/Net/Ipv6.antt =====
-- bipolar/net/ip_address.hpp and ip_address.cpp: `IPv6Address`.
pub mod Conversion
pub mod Order
use bipolar.Common.{
  ℕ, Bool, true, false, not, ◌==◌, ◌&&◌, ◌||◌, if◌then◌else◌, List, [], ◌∷◌, Option, none, some,
}
use bipolar.Core.Byteorder.{hton32}
use bipolar.Net.Storage.{IPv4Address, IPv6Address, load16, load32, less_array, equal_array}
use bipolar.Net.Ipv4.{of_octets}

-- An integer as a condition.
unfoldable pub not_zero : ℕ → Bool
not_zero n = not (n == 0)

module _ (big_endian : Bool) where
  unfoldable pub segments : IPv6Address → List ℕ
  unfolding load16
  segments addr =
      let load = load16 big_endian in
      load addr.w0.b0 addr.w0.b1
      ∷ load addr.w0.b2 addr.w0.b3
      ∷ load addr.w1.b0 addr.w1.b1
      ∷ load addr.w1.b2 addr.w1.b3
      ∷ load addr.w2.b0 addr.w2.b1
      ∷ load addr.w2.b2 addr.w2.b3
      ∷ load addr.w3.b0 addr.w3.b1
      ∷ load addr.w3.b2 addr.w3.b3
      ∷ []

  unfoldable pub is_unspecified : IPv6Address → Bool
  unfolding load32
  is_unspecified addr =
      let load = load32 big_endian in
      load addr.w0 == 0 && load addr.w1 == 0 && load addr.w2 == 0 && load addr.w3 == 0

  unfoldable pub is_loopback : IPv6Address → Bool
  unfolding load32 hton32
  is_loopback addr =
      let load = load32 big_endian in
      load addr.w0 == 0
      && load addr.w1 == 0
      && load addr.w2 == 0
      && load addr.w3 == hton32 big_endian 1

  unfoldable pub to_ipv4 : IPv6Address → Option IPv4Address
  unfolding load16 not_zero of_octets
  to_ipv4 addr =
      let load = load16 big_endian in
      if not_zero (load addr.w0.b0 addr.w0.b1)
        || not_zero (load addr.w0.b2 addr.w0.b3)
        || not_zero (load addr.w1.b0 addr.w1.b1)
        || not_zero (load addr.w1.b2 addr.w1.b3)
        || not_zero (load addr.w2.b0 addr.w2.b1)
      then none
      else if not_zero (load addr.w2.b2 addr.w2.b3) && not (load addr.w2.b2 addr.w2.b3 == 65535)
      then none
      else some (of_octets big_endian addr.w3.b0 addr.w3.b1 addr.w3.b2 addr.w3.b3)

  unfoldable pub eq : IPv6Address → IPv6Address → Bool
  unfolding segments equal_array
  eq lhs rhs = equal_array (segments lhs) (segments rhs)

  unfoldable pub lt : IPv6Address → IPv6Address → Bool
  unfolding segments less_array
  lt lhs rhs = less_array (segments lhs) (segments rhs)

  unfoldable pub ne : IPv6Address → IPv6Address → Bool
  unfolding eq
  ne lhs rhs = not (eq lhs rhs)

  unfoldable pub gt : IPv6Address → IPv6Address → Bool
  unfolding lt
  gt lhs rhs = lt rhs lhs

  unfoldable pub le : IPv6Address → IPv6Address → Bool
  unfolding gt
  le lhs rhs = not (gt lhs rhs)

  unfoldable pub ge : IPv6Address → IPv6Address → Bool
  unfolding lt
  ge lhs rhs = not (lt lhs rhs)
