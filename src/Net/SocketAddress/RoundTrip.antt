-- ===== src/Net/SocketAddress/RoundTrip.antt =====
-- Reading what `SocketAddress::str` wrote (bipolar/net/socket_address.cpp).
use bipolar.Common.{
  ℕ, ◌+◌, ◌^◌, ◌≤◌, ◌<◌, ◌≡◌, ◌≢◌, refl, sym, ap, ◌∙◌, Bool, true, false, [], ◌∷◌, ◌++◌, Option,
  none, some, length, length-append, All, arith,
}
use bipolar.Common.Chars.{Text, front, to_chars}
use mathlib.Core.List.{append_assoc}
use bipolar.Common.Outcome.{returns}
use bipolar.Core.Result.{ok, map, or_else}
use bipolar.Core.Byteorder.{hton16, ntoh16}
use bipolar.Net.Storage.{IPv4Address, IPv6Address}
use bipolar.Net.IpAddress.{IpAddress, of_ipv4, of_ipv6}
use bipolar.Net.IpAddress as ip
use bipolar.Net.SocketAddress.{SocketAddress, from_str, str, ip_str}
use bipolar.Net.SocketAddress.Parts.{
  unbracketed_plain, unbracketed_inside, taken_apart, fits_buffer,
}

-- What `inet_ntop` and `inet_pton` promise for one family: the text of an address fits its buffer, has
-- no null character, and reads as the address.
pub record IsNotation {A : Type 0} (pton : Text → Option A) (ntop : A → Text) (a : A) : Type 0 where
  pub fits : length (ntop a) ≤ 45
  pub plain : All (λ c. 0 < c) (ntop a)
  pub reads : pton (ntop a) ≡ some a

reads4 :
    (pton4 : Text → Option IPv4Address) (pton6 : Text → Option IPv6Address) (t : Text)
    (a : IPv4Address)
    → pton4 t ≡ some a
    → ip.from_str pton4 pton6 t ≡ returns (ok (of_ipv4 a))
unfolding ip.from_str ip.ipv4_from_str map or_else
reads4 pton4 pton6 t a e = rw e refl

reads6 :
    (pton4 : Text → Option IPv4Address) (pton6 : Text → Option IPv6Address) (t : Text)
    (a : IPv6Address)
    → pton4 t ≡ none
    → pton6 t ≡ some a
    → ip.from_str pton4 pton6 t ≡ returns (ok (of_ipv6 a))
unfolding ip.from_str ip.ipv4_from_str ip.ipv6_from_str map or_else
reads6 pton4 pton6 t a e e' = rw (e, e') refl

port_back : (big_endian : Bool) (p : ℕ) → p < 2 ^ 16 → hton16 big_endian (ntoh16 big_endian p) ≡ p
unfolding hton16 ntoh16
port_back true p lt = refl
port_back false p lt = omega arith

port-lt : (big_endian : Bool) (p : ℕ) → p < 2 ^ 16 → ntoh16 big_endian p < 2 ^ 16
unfolding ntoh16
port-lt true p lt = lt
port-lt false p lt = omega arith

module _ (big_endian : Bool) (inet_pton4 : Text → Option IPv4Address)
    (inet_pton6 : Text → Option IPv6Address) (inet_ntop4 : IPv4Address → Text)
    (inet_ntop6 : IPv6Address → Text) where
  from_str-str_ipv4 :
      (a : IPv4Address) (p : ℕ)
      → p < 2 ^ 16
      → IsNotation inet_pton4 inet_ntop4 a
      → 0 < length (inet_ntop4 a)
      → front (inet_ntop4 a) ≢ 91
      → (let s : SocketAddress = record { addr = of_ipv4 a; port = p } in
          (t : Text) × (str big_endian inet_ntop4 inet_ntop6 s ≡ returns t)
          × (from_str big_endian inet_pton4 inet_pton6 t ≡ some (returns (ok s))))
  unfolding str ip_str ip.visit ip.as_ipv4 of_ipv4
  from_str-str_ipv4 a p lt v pos plain =
      let t = inet_ntop4 a in
      let n = ntoh16 big_endian p in
      (
        t ++ 58 ∷ to_chars 5 n [],
        refl,
        taken_apart big_endian inet_pton4 inet_pton6 t n pos (port-lt big_endian p lt)
            ∙ fits_buffer big_endian inet_pton4 inet_pton6 n (length t) t t (of_ipv4 a)
                (unbracketed_plain (length t) t plain) v.fits v.plain
                (reads4 inet_pton4 inet_pton6 t a v.reads)
            ∙ ap (λ q. some (returns (ok (record { addr = of_ipv4 a; port = q }))))
                (port_back big_endian p lt),
      )

  from_str-str_ipv6 :
      (a : IPv6Address) (p : ℕ)
      → p < 2 ^ 16
      → IsNotation inet_pton6 inet_ntop6 a
      → inet_pton4 (inet_ntop6 a) ≡ none
      → (let s : SocketAddress = record { addr = of_ipv6 a; port = p } in
          (t : Text) × (str big_endian inet_ntop4 inet_ntop6 s ≡ returns t)
          × (from_str big_endian inet_pton4 inet_pton6 t ≡ some (returns (ok s))))
  unfolding str ip_str ip.visit ip.as_ipv6 of_ipv6
  from_str-str_ipv6 a p lt v other =
      let t = inet_ntop6 a in
      let b : Text = 91 ∷ t ++ 93 ∷ [] in
      let n = ntoh16 big_endian p in
      let port = to_chars 5 n [] in
      let inner : length b ≡ length t + 2 = ground (arith, length-append t (93 ∷ [])) in
      (
        b ++ 58 ∷ port,
        ap (λ x. returns (91 ∷ x)) (sym (append_assoc t (93 ∷ []) (58 ∷ port))),
        taken_apart big_endian inet_pton4 inet_pton6 b n (omega (arith, inner))
              (port-lt big_endian p lt)
            ∙ fits_buffer big_endian inet_pton4 inet_pton6 n (length b) b t (of_ipv6 a)
                (unbracketed_inside (length b) t inner) v.fits v.plain
                (reads6 inet_pton4 inet_pton6 t a other v.reads)
            ∙ ap (λ q. some (returns (ok (record { addr = of_ipv6 a; port = q }))))
                (port_back big_endian p lt),
      )

  -- `str` of a socket address that has an IPv4 or an IPv6 address returns a text, and `from_str` reads
  -- the socket address back from it, on either kind of machine and also with port 0. It supposes of
  -- the system's conversions of these addresses that the text fits its buffer, has no null character
  -- and reads as the address; that the text of the IPv4 address is not empty and begins with no
  -- bracket; and that the text of the IPv6 address does not read as an IPv4 address.
  pub from_str-str :
      (a : IPv4Address) (b : IPv6Address) (p : ℕ)
      → p < 2 ^ 16
      → IsNotation inet_pton4 inet_ntop4 a
      → 0 < length (inet_ntop4 a)
      → front (inet_ntop4 a) ≢ 91
      → IsNotation inet_pton6 inet_ntop6 b
      → inet_pton4 (inet_ntop6 b) ≡ none
      → (let s : SocketAddress = record { addr = of_ipv4 a; port = p } in
          (t : Text) × (str big_endian inet_ntop4 inet_ntop6 s ≡ returns t)
          × (from_str big_endian inet_pton4 inet_pton6 t ≡ some (returns (ok s))))
        × (let s : SocketAddress = record { addr = of_ipv6 b; port = p } in
            (t : Text) × (str big_endian inet_ntop4 inet_ntop6 s ≡ returns t)
            × (from_str big_endian inet_pton4 inet_pton6 t ≡ some (returns (ok s))))
  from_str-str a b p lt v pos plain w other =
      (from_str-str_ipv4 a p lt v pos plain, from_str-str_ipv6 b p lt w other)
