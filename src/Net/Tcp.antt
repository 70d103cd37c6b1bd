-- ===== src/Net/Tcp.antt =====
-- bipolar/net/tcp.hpp and tcp.cpp: `TcpStream`; Listener is `TcpListener`. The members that all
-- sockets have are those of Net/Socket. The default arguments and the aliases `write` and `read` are
-- left to the caller.
pub mod Listener
pub mod Options
use bipolar.Common.{
  ℕ, ◌+◌, ◌-◌, ◌^◌, Bool, true, false, not, ◌==◌, ltb, if◌then◌else◌, ◌&&◌, Option, none, some, u32,
}
use bipolar.Core.Result.{Result, ok, err, map}
use bipolar.Net.SocketAddress.{SocketAddress}
use bipolar.Net.Native.{to_sockaddr, sockaddr_len}
use bipolar.Net.Os.{
  Os, CInt, Action, pure, call, noexcept, ◌>>=◌, ◌>>◌, or_errno, ok_or_errno, last_error, stream,
  Linger, sol_socket, sol_tcp, so_linger, tcp_nodelay, tcp_info,
}
use bipolar.Net.Socket.{Socket, of_fd}

abbrev pub TcpStream : Type 0
TcpStream = Socket

-- A `bool` as an `int`, and back.
abbrev pub to_int : Bool → ℕ
to_int true = 1
to_int false = 0

abbrev pub to_bool : ℕ → Bool
to_bool n = not (n == 0)

-- `std::chrono::seconds` of an `int`: the 64 bits of the same number.
unfoldable pub seconds : ℕ → ℕ
seconds n = if ltb n (2 ^ 31) then n else n + (2 ^ 64 - 2 ^ 32)

-- The structure that `set_linger` passes; the count is converted to `int`.
abbrev pub linger_opt : Option ℕ → Linger
linger_opt none = record { l_onoff = 0; l_linger = 0 }
linger_opt (some count) = record { l_onoff = 1; l_linger = u32 count }

unfoldable pub of_linger_opt : Linger → Option ℕ
unfolding seconds
of_linger_opt opt = if to_bool opt.l_onoff then some (seconds opt.l_linger) else none

module _ (O : Os) where
  -- After `::connect`, with a copy of `errno`.
  abbrev pub after_connect : ℕ → CInt → ℕ → Action O.State (Result TcpStream ℕ)
  after_connect sock (some ret) e = pure (ok (of_fd (some sock)))
  after_connect sock none e =
      if e == O.einprogress
      then pure (ok (of_fd (some sock)))
      else do call (O.close (some sock)); pure (err e)

  abbrev pub connect_socket : SocketAddress → CInt → Action O.State (Result TcpStream ℕ)
  connect_socket sa none = last_error O
  connect_socket sa (some sock) = do
    addr ← noexcept (to_sockaddr sa)
    ret ← call (O.connect (some sock) addr (sockaddr_len sa))
    e ← call (λ s. (O.errno s, s))
    after_connect sock ret e

  unfoldable pub connect : SocketAddress → Action O.State (Result TcpStream ℕ)
  unfolding to_sockaddr
  connect sa = do sock ← call (O.socket sa.addr.family stream); connect_socket sa sock

  unfoldable pub send : TcpStream → O.Pointer → ℕ → ℕ → Action O.State (Result ℕ ℕ)
  send this buf len flags = do ret ← call (O.send this.fd buf len flags); or_errno O ret

  unfoldable pub writev : TcpStream → O.Pointer → ℕ → Action O.State (Result ℕ ℕ)
  writev this iov vlen = do ret ← call (O.writev this.fd iov vlen); or_errno O ret

  unfoldable pub sendmsg : TcpStream → O.Pointer → ℕ → Action O.State (Result ℕ ℕ)
  sendmsg this msg flags = do ret ← call (O.sendmsg this.fd msg flags); or_errno O ret

  unfoldable pub recv : TcpStream → O.Pointer → ℕ → ℕ → Action O.State (Result ℕ ℕ)
  recv this buf len flags = do ret ← call (O.recv this.fd buf len flags); or_errno O ret

  unfoldable pub recvmsg : TcpStream → O.Pointer → ℕ → Action O.State (Result ℕ ℕ)
  recvmsg this msg flags = do ret ← call (O.recvmsg this.fd msg flags); or_errno O ret

  unfoldable pub shutdown : TcpStream → ℕ → Action O.State (Result (Unit {0}) ℕ)
  shutdown this how = do ret ← call (O.shutdown this.fd how); ok_or_errno O tt ret

  unfoldable pub set_nonblocking : TcpStream → Bool → Action O.State (Result (Unit {0}) ℕ)
  set_nonblocking this enable = do
    ret ← call (O.ioctl_fionbio this.fd (to_int enable))
    ok_or_errno O tt ret

  unfoldable pub set_nodelay : TcpStream → Bool → Action O.State (Result (Unit {0}) ℕ)
  set_nodelay this enable = do
    ret ← call (O.set_int this.fd sol_socket tcp_nodelay (to_int enable))
    ok_or_errno O tt ret

  unfoldable pub nodelay : TcpStream → Action O.State (Result Bool ℕ)
  nodelay this = do
    (ret, optval) ← call (O.get_int this.fd sol_socket tcp_nodelay 0)
    ok_or_errno O (to_bool optval) ret

  unfoldable pub set_linger : TcpStream → Option ℕ → Action O.State (Result (Unit {0}) ℕ)
  set_linger this s = do
    ret ← call (O.set_linger this.fd sol_socket so_linger (linger_opt s))
    ok_or_errno O tt ret

  unfoldable pub linger : TcpStream → Action O.State (Result (Option ℕ) ℕ)
  unfolding of_linger_opt
  linger this = do
    (ret, opt) ← call (O.get_linger this.fd sol_socket so_linger)
    ok_or_errno O (of_linger_opt opt) ret

  unfoldable pub get_tcp_info : TcpStream → Action O.State (Result O.TcpInfo ℕ)
  get_tcp_info this = do
    (ret, info) ← call (O.get_tcp_info this.fd sol_tcp tcp_info)
    ok_or_errno O info ret
