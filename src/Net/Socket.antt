-- ===== src/Net/Socket.antt =====
-- What the classes `TcpStream`, `TcpListener` (bipolar/net/tcp.hpp, tcp.cpp) and `UdpSocket` (udp.hpp,
-- udp.cpp) have in common, with the same code in each: the member `fd_` and the operations that move,
-- copy and close it, and those that ask for addresses and the pending error.
pub mod Ownership
pub mod Creation
pub mod History
pub mod Exclusive
pub mod Errors
use bipolar.Common.{ℕ, Bool, true, false, Option, none, some, ◌==◌}
use bipolar.Core.Result.{Result, ok, err, map}
use bipolar.Net.Native.{Sockaddr, native_addr_to_socket_address}
use bipolar.Net.SocketAddress.{SocketAddress}
use bipolar.Net.Os.{
  Os, CInt, Action, pure, call, asserted, ◌>>=◌, ◌>>◌, last_error, or_errno, ok_or_errno,
  sol_socket, so_error,
}

-- -1, which is `none`, marks an object that has no descriptor.
pub record Socket : Type 0 where
  pub fd : CInt

-- The constructor from a descriptor.
abbrev pub of_fd : CInt → Socket
of_fd fd = record { fd = fd }

abbrev pub invalid : Socket
invalid = of_fd none

-- The move constructor: the new object and the source.
unfoldable pub move : Socket → Socket × Socket
move rhs = (of_fd rhs.fd, record rhs { fd = none })

unfoldable pub swap : Socket → Socket → Socket × Socket
swap this rhs = (record this { fd = rhs.fd }, record rhs { fd = this.fd })

unfoldable pub into_fd : Socket → CInt × Socket
into_fd this = (this.fd, record this { fd = none })

unfoldable pub as_fd : Socket → CInt
as_fd this = this.fd

module _ (O : Os) where
  abbrev pub close_fd : CInt → Action O.State (Result (Unit {0}) ℕ)
  close_fd none = pure (ok tt)
  close_fd (some n) = do ret ← call (O.close (some n)); ok_or_errno O tt ret

  unfoldable pub close : Socket → Action O.State (Result (Unit {0}) ℕ × Socket)
  close this = do r ← close_fd this.fd; pure (r, record this { fd = none })

  -- The destructor: `BIPOLAR_ASSERT` writes a warning to the log if there was an error.
  unfoldable pub destroy : Socket → Action O.State (Unit {0})
  unfolding close
  destroy this = do close this; pure tt

  -- The move assignment: the target and the source. The temporary object that it makes is destroyed.
  unfoldable pub assign : Socket → Socket → Action O.State (Socket × Socket)
  unfolding move swap destroy
  assign this rhs = do
    let (moved, rhs') = move rhs
    let (moved', this') = swap moved this
    destroy moved'
    pure (this', rhs')

  -- An error of `dup`, or an object with the new descriptor.
  abbrev pub new_or_errno : CInt → Action O.State (Result Socket ℕ)
  new_or_errno none = last_error O
  new_or_errno (some n) = pure (ok (of_fd (some n)))

  unfoldable pub try_clone : Socket → Action O.State (Result Socket ℕ)
  try_clone this = do new_fd ← call (O.dup this.fd); new_or_errno new_fd

  -- What a call wrote as an address.
  abbrev pub address_or_errno : CInt × Sockaddr × ℕ → Action O.State (Result SocketAddress ℕ)
  address_or_errno (none, addr, addr_len) = last_error O
  address_or_errno (some n, addr, addr_len) =
      asserted (native_addr_to_socket_address O.einval addr addr_len)

  unfoldable pub local_addr : Socket → Action O.State (Result SocketAddress ℕ)
  local_addr this = do named ← call (O.getsockname this.fd); address_or_errno named

  unfoldable pub peer_addr : Socket → Action O.State (Result SocketAddress ℕ)
  peer_addr this = do named ← call (O.getpeername this.fd); address_or_errno named

  unfoldable pub take_error : Socket → Action O.State (Result ℕ ℕ)
  take_error this = do
    (ret, optval) ← call (O.get_int this.fd sol_socket so_error 0)
    ok_or_errno O optval ret
