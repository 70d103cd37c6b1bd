-- ===== src/Net/Tcp/Listener.antt =====
-- bipolar/net/tcp.hpp and tcp.cpp: `TcpListener`.
use bipolar.Common.{ℕ, ◌-◌, ◌^◌, none, some}
use bipolar.Core.Result.{Result, ok, map}
use bipolar.Net.SocketAddress.{SocketAddress}
use bipolar.Net.Native.{Sockaddr, to_sockaddr, sockaddr_len, native_addr_to_socket_address}
use bipolar.Net.Os.{
  Os, OptionName, CInt, Action, pure, call, noexcept, asserted, ◌>>=◌, ◌>>◌, last_error, stream,
  sol_socket, so_reuseaddr, so_reuseport,
}
use bipolar.Net.Socket.{Socket, of_fd}

abbrev pub TcpListener : Type 0
TcpListener = Socket

-- `std::numeric_limits<int>::max()`.
abbrev pub max_backlog : ℕ
max_backlog = 2 ^ 31 - 1

module _ (O : Os) where
  -- The test of each call of `bind`: if it failed, the socket is closed.
  unfoldable pub or_close :
      {A : Type 0} → ℕ → CInt → Action O.State (Result A ℕ) → Action O.State (Result A ℕ)
  or_close sock none rest = do call (O.close (some sock)); last_error O
  or_close sock (some n) rest = rest

  -- `::setsockopt` with the value 1, and what follows it.
  unfoldable pub set_option :
      {A : Type 0} → ℕ → OptionName → Action O.State (Result A ℕ) → Action O.State (Result A ℕ)
  unfolding or_close
  set_option sock name rest = do
    ret ← call (O.set_int (some sock) sol_socket name 1)
    or_close sock ret rest

  -- `::bind`, and what follows it.
  unfoldable pub bind_address :
      {A : Type 0} → SocketAddress → ℕ → Action O.State (Result A ℕ) → Action O.State (Result A ℕ)
  unfolding to_sockaddr or_close
  bind_address sa sock rest = do
    addr ← noexcept (to_sockaddr sa)
    ret ← call (O.bind (some sock) addr (sockaddr_len sa))
    or_close sock ret rest

  unfoldable pub listen_socket : ℕ → Action O.State (Result TcpListener ℕ)
  unfolding or_close
  listen_socket sock = do
    ret ← call (O.listen (some sock) max_backlog)
    or_close sock ret (pure (ok (of_fd (some sock))))

  unfoldable pub bind_socket : SocketAddress → CInt → Action O.State (Result TcpListener ℕ)
  unfolding set_option bind_address listen_socket
  bind_socket sa none = last_error O
  bind_socket sa (some sock) =
      set_option sock so_reuseaddr
        (set_option sock so_reuseport (bind_address sa sock (listen_socket sock)))

  unfoldable pub bind : SocketAddress → Action O.State (Result TcpListener ℕ)
  unfolding bind_socket
  bind sa = do sock ← call (O.socket sa.addr.family stream); bind_socket sa sock

  -- The callback of `map`: `none` stands for no connection, which is tested before.
  abbrev pub accepted : CInt × Sockaddr × ℕ → Action O.State (Result (Socket × SocketAddress) ℕ)
  accepted (none, addr, addr_len) = last_error O
  accepted (some conn, addr, addr_len) = do
    r ← asserted (native_addr_to_socket_address O.einval addr addr_len)
    pure (map (λ sa. (of_fd (some conn), sa)) r)

  unfoldable pub accept : TcpListener → Action O.State (Result (Socket × SocketAddress) ℕ)
  unfolding map native_addr_to_socket_address
  accept this = do conn ← call (O.accept4 this.fd); accepted conn
