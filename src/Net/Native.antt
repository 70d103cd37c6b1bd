-- ===== src/Net/Native.antt =====
-- The native structures of socket addresses: `to_sockaddr` and the constructors from them
-- (bipolar/net/ip_address.hpp, socket_address.hpp), and
-- bipolar/net/internal/native_to_socket_address.hpp.
pub mod RoundTrip
use bipolar.Common.{ℕ, leb, Option, none, some, if◌then◌else◌}
use bipolar.Common.Outcome.{Outcome, returns, ◌>>=◌}
use bipolar.Core.Result.{Result, ok, err}
use bipolar.Net.Storage.{IPv4Address, IPv6Address}
use bipolar.Net.IpAddress.{
  IpAddress, Family, inet, inet6, unspec, of_ipv4, of_ipv6, is_ipv4, same_family, as_ipv4, as_ipv6,
}
use bipolar.Net.SocketAddress.{SocketAddress, is_ipv6}

-- `struct sockaddr_storage`, read by its family: the members of `sockaddr_in` and `sockaddr_in6`, or
-- the number of another family. The ports are in network byte order.
pub data Sockaddr : Type 0 where
  sockaddr_in : (sin_addr : IPv4Address) (sin_port : ℕ) → Sockaddr
  sockaddr_in6 : (sin6_addr : IPv6Address) (sin6_port flowinfo scope_id : ℕ) → Sockaddr
  other : (ss_family : ℕ) → Sockaddr

-- `AF_UNSPEC`.
abbrev pub af_unspec : ℕ
af_unspec = 0

-- The sizes of the structures of both families.
abbrev pub size_in : ℕ
size_in = 16

abbrev pub size_in6 : ℕ
size_in6 = 28

-- The members that are not assigned are zero.
unfoldable pub ipv4_to_sockaddr : IPv4Address → Sockaddr
ipv4_to_sockaddr addr = sockaddr_in addr 0

unfoldable pub ipv6_to_sockaddr : IPv6Address → Sockaddr
ipv6_to_sockaddr addr = sockaddr_in6 addr 0 0 0

unfoldable pub ip_to_sockaddr : ℕ → IpAddress → Outcome Sockaddr
unfolding as_ipv4 as_ipv6
ip_to_sockaddr port this =
    if is_ipv4 this
    then (as_ipv4 this >>= λ a. returns (sockaddr_in a port))
    else if is_ipv6 this
    then (as_ipv6 this >>= λ a. returns (sockaddr_in6 a port 0 0))
    else returns (other af_unspec)

unfoldable pub to_sockaddr : SocketAddress → Outcome Sockaddr
unfolding ip_to_sockaddr
to_sockaddr this = ip_to_sockaddr this.port this.addr

-- The length that the callers pass with it.
abbrev pub sockaddr_len : SocketAddress → ℕ
sockaddr_len sa = if is_ipv4 sa.addr then size_in else size_in6

-- `SocketAddress(const struct sockaddr_in*)`, and for `sockaddr_in6`.
unfoldable pub of_sockaddr_in : IPv4Address → ℕ → SocketAddress
unfolding of_ipv4
of_sockaddr_in sin_addr sin_port = record { addr = of_ipv4 sin_addr; port = sin_port }

unfoldable pub of_sockaddr_in6 : IPv6Address → ℕ → SocketAddress
unfolding of_ipv6
of_sockaddr_in6 sin6_addr sin6_port = record { addr = of_ipv6 sin6_addr; port = sin6_port }

-- `none` is a failed assertion on the length.
unfoldable pub native_addr_to_socket_address :
    (einval : ℕ) → Sockaddr → (len : ℕ) → Option (Result SocketAddress ℕ)
unfolding of_sockaddr_in of_sockaddr_in6
native_addr_to_socket_address einval (sockaddr_in a port) len =
    if leb size_in len then some (ok (of_sockaddr_in a port)) else none
native_addr_to_socket_address einval (sockaddr_in6 a port _ _) len =
    if leb size_in6 len then some (ok (of_sockaddr_in6 a port)) else none
native_addr_to_socket_address einval (other _) len = some (err einval)
