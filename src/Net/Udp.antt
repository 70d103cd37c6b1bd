-- ===== src/Net/Udp.antt =====
-- bipolar/net/udp.hpp and udp.cpp: `UdpSocket`. The members that all sockets have are those of
-- Net/Socket; the default arguments and the aliases `write` and `read` are left to the caller.
use bipolar.Common.{ℕ, none, some}
use bipolar.Core.Result.{Result, ok, map}
use bipolar.Net.SocketAddress.{SocketAddress}
use bipolar.Net.Native.{
  Sockaddr, other, af_unspec, size_in, to_sockaddr, sockaddr_len, native_addr_to_socket_address,
}
use bipolar.Net.Os.{
  Os, CInt, Action, pure, call, noexcept, asserted, ◌>>=◌, last_error, or_errno, ok_or_errno, dgram,
  so_reuseport,
}
use bipolar.Net.Socket.{Socket, of_fd}
use bipolar.Net.Tcp.Listener.{set_option, bind_address}

abbrev pub UdpSocket : Type 0
UdpSocket = Socket

module _ (O : Os) where
  unfoldable pub bind_socket : SocketAddress → CInt → Action O.State (Result UdpSocket ℕ)
  unfolding set_option bind_address
  bind_socket sa none = last_error O
  bind_socket sa (some sock) =
      set_option O sock so_reuseport (bind_address O sa sock (pure (ok (of_fd (some sock)))))

  unfoldable pub bind : SocketAddress → Action O.State (Result UdpSocket ℕ)
  unfolding bind_socket
  bind sa = do sock ← call (O.socket sa.addr.family dgram); bind_socket sa sock

  unfoldable pub connect : UdpSocket → SocketAddress → Action O.State (Result (Unit {0}) ℕ)
  unfolding to_sockaddr
  connect this sa = do
    addr ← noexcept (to_sockaddr sa)
    ret ← call (O.connect this.fd addr (sockaddr_len sa))
    ok_or_errno O tt ret

  unfoldable pub dissolve : UdpSocket → Action O.State (Result (Unit {0}) ℕ)
  dissolve this = do ret ← call (O.connect this.fd (other af_unspec) size_in); ok_or_errno O tt ret

  unfoldable pub send : UdpSocket → O.Pointer → ℕ → ℕ → Action O.State (Result ℕ ℕ)
  send this buf len flags = do ret ← call (O.send this.fd buf len flags); or_errno O ret

  unfoldable pub sendto :
      UdpSocket → O.Pointer → ℕ → SocketAddress → ℕ → Action O.State (Result ℕ ℕ)
  unfolding to_sockaddr
  sendto this buf len sa flags = do
    addr ← noexcept (to_sockaddr sa)
    ret ← call (O.sendto this.fd buf len flags addr (sockaddr_len sa))
    or_errno O ret

  unfoldable pub writev : UdpSocket → O.Pointer → ℕ → Action O.State (Result ℕ ℕ)
  writev this iov vlen = do ret ← call (O.writev this.fd iov vlen); or_errno O ret

  unfoldable pub sendmsg : UdpSocket → O.Pointer → ℕ → Action O.State (Result ℕ ℕ)
  sendmsg this msg flags = do ret ← call (O.sendmsg this.fd msg flags); or_errno O ret

  unfoldable pub sendmmsg : UdpSocket → O.Pointer → ℕ → ℕ → Action O.State (Result ℕ ℕ)
  sendmmsg this msgvec vlen flags = do
    ret ← call (O.sendmmsg this.fd msgvec vlen flags)
    or_errno O ret

  unfoldable pub recv : UdpSocket → O.Pointer → ℕ → ℕ → Action O.State (Result ℕ ℕ)
  recv this buf len flags = do ret ← call (O.recv this.fd buf len flags); or_errno O ret

  abbrev pub received : CInt × Sockaddr × ℕ → Action O.State (Result (ℕ × SocketAddress) ℕ)
  received (none, addr, addr_len) = last_error O
  received (some n, addr, addr_len) = do
    r ← asserted (native_addr_to_socket_address O.einval addr addr_len)
    pure (map (λ sa. (n, sa)) r)

  unfoldable pub recvfrom :
      UdpSocket → O.Pointer → ℕ → ℕ → Action O.State (Result (ℕ × SocketAddress) ℕ)
  unfolding map native_addr_to_socket_address
  recvfrom this buf len flags = do got ← call (O.recvfrom this.fd buf len flags); received got

  unfoldable pub readv : UdpSocket → O.Pointer → ℕ → Action O.State (Result ℕ ℕ)
  readv this iov vlen = do ret ← call (O.readv this.fd iov vlen); or_errno O ret

  unfoldable pub recvmsg : UdpSocket → O.Pointer → ℕ → Action O.State (Result ℕ ℕ)
  recvmsg this msg flags = do ret ← call (O.recvmsg this.fd msg flags); or_errno O ret

  unfoldable pub recvmmsg : UdpSocket → O.Pointer → ℕ → ℕ → Action O.State (Result ℕ ℕ)
  recvmmsg this msgvec vlen flags = do
    ret ← call (O.recvmmsg this.fd msgvec vlen flags)
    or_errno O ret
