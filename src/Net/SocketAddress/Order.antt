-- ===== src/Net/SocketAddress/Order.antt =====
-- The comparisons of socket addresses (bipolar/net/socket_address.hpp).
use bipolar.Common.{ℕ, ◌≡◌, ◌≢◌, refl, sym, ap, subst, Bool, true, false, ◌==◌, arith}
use bipolar.Common.Outcome.{returns}
use bipolar.Net.Ipv4
use bipolar.Net.Ipv6.Order.{trichotomy}
use bipolar.Net.IpAddress.{IpAddress, Stored, monostate, v4, v6, unspec}
use bipolar.Net.IpAddress as ip
use bipolar.Net.IpAddress.Comparison.{IsSound, eq_outcomes_iff, sound_view, of_stored, IsStored}
use bipolar.Net.SocketAddress.{SocketAddress, eq, lt, le}

less_self :
    (big_endian : Bool) (s : Stored)
    → IsStored s
    → (of_stored s).family ≢ unspec
    → ip.lt big_endian (of_stored s) (of_stored s) ≡ returns false
unfolding ip.lt ip.as_ipv4 ip.as_ipv6 Ipv4.lt
less_self big_endian monostate w h = absurd (h refl)
less_self big_endian (v4 a) w h = ground arith
less_self big_endian (v6 a) w h = ap returns (trichotomy big_endian a a w w).1

address_less_self :
    (big_endian : Bool) (a : IpAddress)
    → IsSound a
    → a.family ≢ unspec
    → ip.lt big_endian a a ≡ returns false
address_less_self big_endian a v h =
    let (s, w, e) = sound_view a v in
    subst (λ a. a.family ≢ unspec → ip.lt big_endian a a ≡ returns false) (sym e)
      (less_self big_endian s w) h

-- Two socket addresses that have the same sound address, not of the unspecified family, and different
-- ports are not equal and neither is less, and yet each is less than or equal to the other one.
pub ports_unordered :
    (big_endian : Bool) (a : IpAddress) (p q : ℕ)
    → IsSound a
    → a.family ≢ unspec
    → p ≢ q
    → (let s : SocketAddress = record { addr = a; port = p } in
        let t : SocketAddress = record { addr = a; port = q } in
        (eq big_endian s t ≡ returns false)
        × (lt big_endian s t ≡ returns false)
        × (lt big_endian t s ≡ returns false)
        × (le big_endian s t ≡ returns true)
        × (le big_endian t s ≡ returns true))
unfolding eq lt le
ports_unordered big_endian a p q v h apart =
    let same = ((eq_outcomes_iff big_endian a a v v).0).1 (refl, h) in
    let less = address_less_self big_endian a v h in
    let ports : (p == q) ≡ false = ground arith in
    (rw (same, ports) refl, rw less refl, rw less refl, rw less refl, rw less refl)
