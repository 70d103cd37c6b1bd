-- ===== src/Net/IpAddress.antt =====
-- bipolar/net/ip_address.hpp and ip_address.cpp: `IPAddress`. The address family and the variant are
-- two members, as in the code; `std::get` of the wrong alternative throws.
pub mod Comparison
use bipolar.Common.{Bool, true, false, not, Option, none, some, if◌then◌else◌}
use bipolar.Common.Outcome.{Outcome, returns, throws, ◌>>=◌}
use bipolar.Core.Result.{Result, ok, err, map, or_else}
use bipolar.Net.Storage.{IPv4Address, IPv6Address}
use bipolar.Net.Ipv4
use bipolar.Net.Ipv6

pub data Family : Type 0 where
  unspec inet inet6 : Family

pub data Stored : Type 0 where
  monostate : Stored
  v4 : IPv4Address → Stored
  v6 : IPv6Address → Stored

pub record IpAddress : Type 0 where
  pub family : Family
  pub addr : Stored

abbrev pub same_family : Family → Family → Bool
same_family unspec unspec = true
same_family inet inet = true
same_family inet6 inet6 = true
same_family _ _ = false

unfoldable pub empty : IpAddress
empty = record { family = unspec; addr = monostate }

unfoldable pub of_ipv4 : IPv4Address → IpAddress
of_ipv4 a = record { family = inet; addr = v4 a }

unfoldable pub of_ipv6 : IPv6Address → IpAddress
of_ipv6 a = record { family = inet6; addr = v6 a }

-- The two assignments.
unfoldable pub assign_ipv4 : IPv4Address → IpAddress → IpAddress
assign_ipv4 a this = record this { family = inet; addr = v4 a }

unfoldable pub assign_ipv6 : IPv6Address → IpAddress → IpAddress
assign_ipv6 a this = record this { family = inet6; addr = v6 a }

unfoldable pub reset : IpAddress → IpAddress
reset this = record this { family = unspec; addr = monostate }

abbrev pub is_ipv4 : IpAddress → Bool
is_ipv4 this = same_family this.family inet

abbrev pub is_empty : IpAddress → Bool
is_empty this = same_family this.family unspec

unfoldable pub as_ipv4 : IpAddress → Outcome IPv4Address
as_ipv4 this = elim this.addr [ v4 a ↦ returns a | _ ↦ throws none ]

unfoldable pub as_ipv6 : IpAddress → Outcome IPv6Address
as_ipv6 this = elim this.addr [ v6 a ↦ returns a | _ ↦ throws none ]

unfoldable pub visit {ℓ} :
    {A : Type ℓ} → (IPv4Address → A) → (IPv6Address → A) → A → IpAddress → Outcome A
unfolding as_ipv4 as_ipv6
visit f g u this = elim this.family [
  | inet ↦ as_ipv4 this >>= λ a. returns (f a)
  | inet6 ↦ as_ipv6 this >>= λ a. returns (g a)
  | unspec ↦ returns u
]

module _ (big_endian : Bool) where
  unfoldable pub is_unspecified : IpAddress → Outcome Bool
  unfolding visit
  is_unspecified this =
      visit (Ipv4.is_unspecified big_endian) (Ipv6.is_unspecified big_endian) false this

  unfoldable pub is_loopback : IpAddress → Outcome Bool
  unfolding visit
  is_loopback this = visit Ipv4.is_loopback (Ipv6.is_loopback big_endian) false this

  unfoldable pub eq : IpAddress → IpAddress → Outcome Bool
  unfolding as_ipv4 as_ipv6
  eq lhs rhs =
      if same_family lhs.family rhs.family
      then if is_ipv4 lhs
        then as_ipv4 lhs >>= (λ a. as_ipv4 rhs >>= λ b. returns (Ipv4.eq big_endian a b))
        else as_ipv6 lhs >>= (λ a. as_ipv6 rhs >>= λ b. returns (Ipv6.eq big_endian a b))
      else returns false

  unfoldable pub ne : IpAddress → IpAddress → Outcome Bool
  unfolding eq
  ne lhs rhs = eq lhs rhs >>= λ b. returns (not b)

  unfoldable pub lt : IpAddress → IpAddress → Outcome Bool
  unfolding as_ipv4 as_ipv6
  lt lhs rhs =
      if same_family lhs.family rhs.family
      then if is_ipv4 lhs
        then as_ipv4 lhs >>= (λ a. as_ipv4 rhs >>= λ b. returns (Ipv4.lt big_endian a b))
        else as_ipv6 lhs >>= (λ a. as_ipv6 rhs >>= λ b. returns (Ipv6.lt big_endian a b))
      else returns false

  unfoldable pub gt : IpAddress → IpAddress → Outcome Bool
  unfolding lt
  gt lhs rhs = lt rhs lhs

  unfoldable pub le : IpAddress → IpAddress → Outcome Bool
  unfolding gt
  le lhs rhs = gt lhs rhs >>= λ b. returns (not b)

  unfoldable pub ge : IpAddress → IpAddress → Outcome Bool
  unfolding lt
  ge lhs rhs = lt lhs rhs >>= λ b. returns (not b)

pub data FormatError : Type 0 where
  invalid_ip : FormatError

-- The test of what `inet_pton` returned.
abbrev pub checked : {A : Type 0} → Option A → Result A FormatError
checked none = err invalid_ip
checked (some a) = ok a

-- `inet_pton` is a parameter for each family: the bytes of an address that it reads, or none.
module _ {Text : Type 0} (inet_pton4 : Text → Option IPv4Address)
    (inet_pton6 : Text → Option IPv6Address) where
  unfoldable pub ipv4_from_str : Text → Result IPv4Address FormatError
  ipv4_from_str sv = checked (inet_pton4 sv)

  unfoldable pub ipv6_from_str : Text → Result IPv6Address FormatError
  ipv6_from_str sv = checked (inet_pton6 sv)

  unfoldable pub from_str : Text → Outcome (Result IpAddress FormatError)
  unfolding ipv4_from_str ipv6_from_str map or_else of_ipv4 of_ipv6
  from_str sv = or_else (λ e. map of_ipv6 (ipv6_from_str sv)) (map of_ipv4 (ipv4_from_str sv))
