-- ===== src/Net/Examples/Sockets.antt =====
-- The theorems about bipolar/net/socket_address.hpp at concrete inputs: 127.0.0.1 and ::1, port 80.
use bipolar.Common.{
  ◌<◌, ◌≡◌, ◌↔◌, refl, arith, ◌==◌, if◌then◌else◌, [], ◌∷◌, ◌++◌, Option, none, some, length, false,
}
use bipolar.Common.Chars.{Text, front, to_chars}
use bipolar.Common.Outcome.{returns}
use bipolar.Core.Result.{ok}
use bipolar.Net.Storage.{bytes, words, zeros, IPv4Address, IPv6Address}
use bipolar.Net.IpAddress.{of_ipv4, of_ipv6}
use bipolar.Net.SocketAddress.{SocketAddress, str, from_str, unbracketed}
use bipolar.Net.SocketAddress.Parts.{from_str_undefined_iff}
use bipolar.Net.SocketAddress.RoundTrip.{from_str-str}

abbrev home : IPv4Address
home = bytes 127 0 0 1

abbrev home6 : IPv6Address
home6 = words zeros zeros zeros (bytes 0 0 0 1)

-- Conversions that know these two addresses.
abbrev ntop4 : IPv4Address → Text
ntop4 a = 49 ∷ 50 ∷ 55 ∷ 46 ∷ 48 ∷ 46 ∷ 48 ∷ 46 ∷ 49 ∷ []

abbrev ntop6 : IPv6Address → Text
ntop6 a = 58 ∷ 58 ∷ 49 ∷ []

abbrev pton4 : Text → Option IPv4Address
pton4 s = if front s == 49 then some home else none

abbrev pton6 : Text → Option IPv6Address
pton6 s = if front s == 58 then some home6 else none

from_str-str_example :
    (let s : SocketAddress = record { addr = of_ipv4 home; port = 20480 } in
      (t : Text) × (str false ntop4 ntop6 s ≡ returns t)
      × (from_str false pton4 pton6 t ≡ some (returns (ok s))))
    × (let s : SocketAddress = record { addr = of_ipv6 home6; port = 20480 } in
        (t : Text) × (str false ntop4 ntop6 s ≡ returns t)
        × (from_str false pton4 pton6 t ≡ some (returns (ok s))))
from_str-str_example =
    from_str-str false pton4 pton6 ntop4 ntop6 home home6 20480 (omega arith)
      (record { fits = omega arith; plain = omega arith; reads = refl }) (omega arith)
      (λ e. omega (arith, e)) (record { fits = omega arith; plain = omega arith; reads = refl })
      refl

-- Forty-six digits, more than the buffer holds with the null character.
abbrev long_text : Text
long_text =
    49 ∷ 49 ∷ 49 ∷ 49 ∷ 49 ∷ 49 ∷ 49 ∷ 49 ∷ 49 ∷ 49 ∷ 49 ∷ 49 ∷ 49 ∷ 49 ∷ 49 ∷ 49 ∷ 49 ∷ 49 ∷ 49
    ∷ 49 ∷ 49 ∷ 49 ∷ 49 ∷ 49 ∷ 49 ∷ 49 ∷ 49 ∷ 49 ∷ 49 ∷ 49 ∷ 49 ∷ 49 ∷ 49 ∷ 49 ∷ 49 ∷ 49 ∷ 49 ∷ 49
    ∷ 49 ∷ 49 ∷ 49 ∷ 49 ∷ 49 ∷ 49 ∷ 49 ∷ 49 ∷ []

from_str_undefined_iff_example :
    (from_str false pton4 pton6 (long_text ++ 58 ∷ to_chars 5 80 []) ≡ none)
    ↔ (45 < length (unbracketed (length long_text) long_text))
from_str_undefined_iff_example =
    from_str_undefined_iff false pton4 pton6 long_text 80 (omega arith) (omega arith)
