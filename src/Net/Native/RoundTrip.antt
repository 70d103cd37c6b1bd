-- ===== src/Net/Native/RoundTrip.antt =====
-- Socket addresses to native structures and back.
use bipolar.Common.{ℕ, ◌≡◌, ◌≢◌, refl, some, sym, subst}
use bipolar.Common.Outcome.{returns}
use bipolar.Core.Result.{ok, err}
use bipolar.Net.IpAddress.{Stored, monostate, v4, v6, unspec, of_ipv4, of_ipv6, as_ipv4, as_ipv6}
use bipolar.Net.IpAddress.Comparison.{IsSound, of_stored, sound_view}
use bipolar.Net.SocketAddress.{SocketAddress}
use bipolar.Net.Native.{
  Sockaddr, sockaddr_in, sockaddr_in6, other, af_unspec, sockaddr_len, to_sockaddr, ip_to_sockaddr,
  native_addr_to_socket_address, of_sockaddr_in, of_sockaddr_in6,
}

-- What `native_addr_to_socket_address` makes of a structure that `to_sockaddr` gave, with the length
-- passed with it: the address itself, or `EINVAL` if the address is empty.
abbrev pub Returned : ℕ → SocketAddress → Sockaddr → Type 0
Returned einval sa native =
    ((sa.addr.family ≢ unspec)
      → native_addr_to_socket_address einval native (sockaddr_len sa) ≡ some (ok sa))
    × (sa.addr.family ≡ unspec
        → native_addr_to_socket_address einval native (sockaddr_len sa) ≡ some (err einval))

stored_native :
    (einval : ℕ) (s : Stored) (port : ℕ)
    → (n : Sockaddr) × (ip_to_sockaddr port (of_stored s) ≡ returns n)
      × Returned einval (record { addr = of_stored s; port = port }) n
unfolding ip_to_sockaddr native_addr_to_socket_address of_sockaddr_in of_sockaddr_in6 of_ipv4
    of_ipv6 as_ipv4 as_ipv6
stored_native einval monostate port = (other af_unspec, refl, ((λ n. absurd (n refl)), λ _. refl))
stored_native einval (v4 a) port = (sockaddr_in a port, refl, ((λ _. refl), λ e. cc))
stored_native einval (v6 a) port = (sockaddr_in6 a port 0 0, refl, ((λ _. refl), λ e. cc))

-- A socket address is given to a system call in a native structure, without an exception, and is read
-- back from it unchanged with the length that was passed, unless it is empty, which is refused with
-- `EINVAL`.
pub native_addr_to_socket_address-to_sockaddr :
    (einval : ℕ) (sa : SocketAddress)
    → IsSound sa.addr
    → (n : Sockaddr) × (to_sockaddr sa ≡ returns n) × Returned einval sa n
unfolding to_sockaddr
native_addr_to_socket_address-to_sockaddr einval sa sound =
    let (s, w, e) = sound_view sa.addr sound in
    subst
      (λ a.
        (n : Sockaddr) × (ip_to_sockaddr sa.port a ≡ returns n)
        × Returned einval (record { addr = a; port = sa.port }) n)
      (sym e) (stored_native einval s sa.port)
