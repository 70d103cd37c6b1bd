-- ===== src/Net/Examples/Descriptors.antt =====
-- The theorems about sockets at concrete inputs.
use bipolar.Common.{zero, suc, ◌≡◌, ◌↔◌, ◌<◌, true, false, some, List, [], ◌∷◌, All, arith, refl}
use bipolar.Common.Outcome.{returns}
use bipolar.Net.Storage.{bytes}
use bipolar.Net.IpAddress.{inet, v4}
use bipolar.Net.SocketAddress.{SocketAddress}
use bipolar.Net.Native.{Sockaddr, sockaddr_in, to_sockaddr, ip_to_sockaddr}
use bipolar.Net.IpAddress.{as_ipv4}
use bipolar.Net.Native.RoundTrip.{Returned, native_addr_to_socket_address-to_sockaddr}
use bipolar.Net.Os.{stream, continued}
use bipolar.Net.Os.Descriptors.{owned_by, IsNamed, Conserves}
use bipolar.Net.Socket.{of_fd}
use bipolar.Net.Socket.Ownership.{owned_pair}
use bipolar.Net.Socket.History.{
  World, Command, create_epoll, connect_to, listen_at, bind_at, accept_one, clone_it, close_it,
  destroy_it, move_it, assign_next, swap_next, release, adopt, pick, run, Exclusive, IsBalanced,
  IsProper,
}
use bipolar.Net.Socket.Exclusive.{run-IsBalanced}
use bipolar.Net.Socket.Errors.{
  first_error, first_error_closing, first_error_of, unless_in_progress, Reports,
  connect-first_error, bind_calls, bind-error_after_close, accept_keeps_iff,
}
use bipolar.Net.Tcp.{connect, set_linger, linger}
use bipolar.Net.Tcp.Listener.{bind, accept}
use bipolar.Net.Tcp.Options.{Answers, Fits, linger_iff}
use bipolar.Net.Native.{sockaddr_len}
use bipolar.Net.Examples.Host.{Host, host, host_opened, host-IsDescriptors, host-IsLinger}

abbrev server : SocketAddress
server = record { addr = record { family = inet; addr = v4 (bytes 10 0 0 1) }; port = 20480 }

-- To this address the host refuses to connect.
abbrev closed_port : SocketAddress
closed_port = record { addr = record { family = inet; addr = v4 (bytes 10 0 0 1) }; port = 0 }

-- Descriptors 0 and 2 are open.
abbrev booted : Host
booted = record {
  table = true ∷ false ∷ true ∷ [];
  linger = record { l_onoff = 0; l_linger = 0 };
  socket_option = 0;
  tcp_option = 0;
}

abbrev first_world : World Host
first_world = record { state = booted; raw = 0 ∷ 2 ∷ []; objects = [] }

abbrev commands : List (Command Host)
commands =
    listen_at server
    ∷ create_epoll
    ∷ pick 1
    ∷ accept_one
    ∷ connect_to closed_port
    ∷ clone_it
    ∷ pick 2
    ∷ assign_next
    ∷ move_it
    ∷ swap_next
    ∷ close_it
    ∷ adopt
    ∷ release
    ∷ bind_at server
    ∷ destroy_it
    ∷ []

first_world-IsBalanced : IsBalanced host host_opened first_world
first_world-IsBalanced zero = refl
first_world-IsBalanced (suc zero) = refl
first_world-IsBalanced (suc (suc zero)) = refl
first_world-IsBalanced (suc (suc (suc k))) = ground arith

abbrev server_sound : (10 < 256) × (0 < 256) × (0 < 256) × (1 < 256)
server_sound = (omega arith, omega arith, omega arith, omega arith)

commands-IsProper : All (IsProper host host_opened) commands
commands-IsProper = (
  server_sound,
  (
    tt,
    (
      tt,
      (
        tt,
        (server_sound, (tt, (tt, (tt, (tt, (tt, (tt, (tt, (tt, (server_sound, (tt, tt))))))))))),
      ),
    ),
  ),
)

run-IsBalanced_example : Exclusive host host_opened (run host commands first_world)
run-IsBalanced_example =
    run-IsBalanced host host_opened host-IsDescriptors (λ s fd. omega arith) commands first_world
      commands-IsProper first_world-IsBalanced

abbrev closed_native : Sockaddr
closed_native = sockaddr_in (bytes 10 0 0 1) 0

closed_port_native : to_sockaddr closed_port ≡ returns closed_native
unfolding to_sockaddr ip_to_sockaddr as_ipv4
closed_port_native = refl

connect-first_error_example :
    Reports host
      (first_error_of host
        (λ n s. unless_in_progress host (
          first_error host (host.connect (some n) closed_native (sockaddr_len closed_port) ∷ []) s))
        (host.socket inet stream booted))
      (connect host closed_port booted)
connect-first_error_example =
    connect-first_error host closed_port closed_native closed_port_native booted

bind-error_after_close_example :
    Reports host
      (first_error_of host
        (λ n.
          first_error_closing host n
            (bind_calls host closed_port closed_native closed_port_native n))
        (host.socket inet stream booted))
      (bind host closed_port booted)
bind-error_after_close_example =
    bind-error_after_close host closed_port closed_native closed_port_native booted

accept_keeps_iff_example :
    Conserves host host_opened booted
      (λ _. 0)
      (owned_by owned_pair)
      (accept host (of_fd (some 0)) booted)
    ↔ IsNamed (host.accept4 (some 0) booted).0
accept_keeps_iff_example =
    accept_keeps_iff host host_opened host-IsDescriptors (of_fd (some 0)) booted

native_addr_to_socket_address-to_sockaddr_example :
    (n : Sockaddr) × (to_sockaddr server ≡ returns n) × Returned 22 server n
native_addr_to_socket_address-to_sockaddr_example =
    native_addr_to_socket_address-to_sockaddr 22 server server_sound

linger_iff_example :
    Answers (some 30) (
      continued
        (λ _. linger host (of_fd (some 2)))
        (set_linger host (of_fd (some 2)) (some 30) booted))
    ↔ Fits (some 30)
unfolding set_linger
linger_iff_example =
    linger_iff host (of_fd (some 2)) (some 30) booted host-IsLinger (omega arith) (omega arith) refl
