-- ===== src/Net/SocketAddress.antt =====
-- bipolar/net/socket_address.hpp and socket_address.cpp. A text is a list of character codes, a port is
-- in network byte order. `inet_pton` and `inet_ntop` of each family are parameters, as is the byte
-- order of the machine.
pub mod Order
pub mod Parts
pub mod RoundTrip
use bipolar.Common.{
  ℕ, suc, ◌+◌, ◌-◌, Bool, true, false, not, ◌==◌, ltb, leb, if◌then◌else◌, ◌&&◌, List, [], ◌∷◌,
  ◌++◌, Option, none, some, length, drop,
}
use bipolar.Common.Chars.{
  Text, take, rfind, front, back, c_string, all_digits, from_chars, to_chars,
}
use bipolar.Common.Outcome.{Outcome, returns, throws, ◌>>=◌}
use bipolar.Core.Result.{Result, ok, err, map, map_err}
use bipolar.Core.Byteorder.{hton16, ntoh16}
use bipolar.Net.Storage.{IPv4Address, IPv6Address}
use bipolar.Net.IpAddress.{IpAddress, Family, inet, inet6, same_family, is_ipv4, visit}
use bipolar.Net.IpAddress as ip

pub data SocketFormatError : Type 0 where
  invalid_address invalid_port invalid_format : SocketFormatError

pub record SocketAddress : Type 0 where
  pub addr : IpAddress
  pub port : ℕ

-- The members that change the address and the port.
unfoldable pub set_addr : IpAddress → SocketAddress → SocketAddress
set_addr addr this = record this { addr = addr }

unfoldable pub set_port : ℕ → SocketAddress → SocketAddress
set_port port this = record this { port = port }

abbrev pub is_ipv6 : IpAddress → Bool
is_ipv6 this = same_family this.family inet6

-- `INET6_ADDRSTRLEN`.
abbrev pub buffer_size : ℕ
buffer_size = 46

-- The copy into the buffer, and the string that is read from it: `none` if the text is too long for the
-- buffer and the null character that ends it. What is then written or read is undefined.
unfoldable pub buffered : Text → Option Text
buffered s = if ltb (length s) buffer_size then some (c_string s) else none

-- The text between brackets, or the whole; `pos` is its length.
unfoldable pub unbracketed : ℕ → Text → Text
unbracketed pos s = if front s == 91 && back s == 93 then take (pos - 2) (drop 1 s) else s

module _ (big_endian : Bool) where
  module _ (inet_pton4 : Text → Option IPv4Address) (inet_pton6 : Text → Option IPv6Address) where
    -- The end of `from_str`, with the port and the string in the buffer.
    abbrev pub with_address :
        ℕ → Option Text → Option (Outcome (Result SocketAddress SocketFormatError))
    with_address port none = none
    with_address port (some addr) = some (
        ip.from_str inet_pton4 inet_pton6 addr >>= λ r. returns (
          map_err (λ _. invalid_address)
            (map (λ a. record { addr = a; port = hton16 big_endian port }) r)))

    -- After the checks of the port.
    unfoldable pub with_port :
        ℕ → ℕ → Text → Option (Outcome (Result SocketAddress SocketFormatError))
    unfolding buffered unbracketed
    with_port port pos addr_str = with_address port (buffered (unbracketed pos addr_str))

    unfoldable pub with_texts :
        ℕ → Text → Text → Option (Outcome (Result SocketAddress SocketFormatError))
    unfolding with_port
    with_texts pos addr_str port_str =
        if ltb 5 (length port_str)
        then some (returns (err invalid_port))
        else if not (all_digits port_str)
        then some (returns (err invalid_port))
        else let port = from_chars port_str 0 in
          if ltb 65535 port then some (returns (err invalid_port)) else with_port port pos addr_str

    unfoldable pub from_str : Text → Option (Outcome (Result SocketAddress SocketFormatError))
    unfolding with_texts
    from_str sv =
        if leb (length sv) 1 then some (returns (err invalid_format)) else elim (rfind 58 sv) [
          | none ↦ some (returns (err invalid_format))
          | some pos ↦
              if pos == 0
              then some (returns (err invalid_format))
              else with_texts pos (take pos sv) (drop (pos + 1) sv)
        ]

  module _ (inet_ntop4 : IPv4Address → Text) (inet_ntop6 : IPv6Address → Text) where
    unfoldable pub ip_str : IpAddress → Outcome Text
    unfolding visit
    ip_str this = visit inet_ntop4 inet_ntop6 [] this

    unfoldable pub str : SocketAddress → Outcome Text
    unfolding ip_str
    str this =
        if is_ipv4 this.addr
        then ip_str (this.addr)
          >>= (λ a. returns (a ++ 58 ∷ to_chars 5 (ntoh16 big_endian this.port) []))
        else if is_ipv6 this.addr
        then ip_str (this.addr)
          >>= (λ a. returns (91 ∷ a ++ 93 ∷ 58 ∷ to_chars 5 (ntoh16 big_endian this.port) []))
        else returns []

  unfoldable pub eq : SocketAddress → SocketAddress → Outcome Bool
  eq lhs rhs = ip.eq big_endian lhs.addr rhs.addr >>= λ b. returns (b && lhs.port == rhs.port)

  unfoldable pub ne : SocketAddress → SocketAddress → Outcome Bool
  unfolding eq
  ne lhs rhs = eq lhs rhs >>= λ b. returns (not b)

  unfoldable pub lt : SocketAddress → SocketAddress → Outcome Bool
  lt lhs rhs = ip.lt big_endian lhs.addr rhs.addr >>= λ b. returns (b && ltb lhs.port rhs.port)

  unfoldable pub gt : SocketAddress → SocketAddress → Outcome Bool
  unfolding lt
  gt lhs rhs = lt rhs lhs

  unfoldable pub le : SocketAddress → SocketAddress → Outcome Bool
  unfolding gt
  le lhs rhs = gt lhs rhs >>= λ b. returns (not b)

  unfoldable pub ge : SocketAddress → SocketAddress → Outcome Bool
  unfolding lt
  ge lhs rhs = lt lhs rhs >>= λ b. returns (not b)
