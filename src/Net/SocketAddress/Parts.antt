-- ===== src/Net/SocketAddress/Parts.antt =====
-- How `SocketAddress::from_str` takes a text apart (bipolar/net/socket_address.cpp), and when it leaves
-- its buffer.
use bipolar.Common.{
  ◌↔◌, Bool-cases, inl, inr, ℕ, ◌+◌, ◌-◌, ◌^◌, ◌≤◌, ◌<◌, ◌≡◌, ◌≢◌, refl, ap, ◌∙◌, Bool, false, ◌==◌,
  ltb, leb, [], ◌∷◌, ◌++◌, Option, none, some, length, length-append, All, arith,
}
use bipolar.Common.Chars.{
  Text, take, front, c_string, from_chars, to_chars, from_chars-to_chars, all_digits-to_chars,
  length-to_chars, rfind_digits, rfind-append, take-length, drop-length, back-append,
}
use bipolar.Common.Outcome.{returns}
use bipolar.Core.Result.{ok, map, map_err}
use bipolar.Core.Byteorder.{hton16}
use bipolar.Net.Storage.{IPv4Address, IPv6Address}
use bipolar.Net.IpAddress.{IpAddress, of_ipv4, of_ipv6}
use bipolar.Net.IpAddress as ip
use bipolar.Net.SocketAddress.{buffered, unbracketed, with_address, with_port, with_texts, from_str}

c_string_whole : (s : Text) → All (λ c. 0 < c) s → c_string s ≡ s
c_string_whole [] h = refl
c_string_whole (c ∷ s) h = ground (arith, c_string_whole s h.1)

buffered_short : (s : Text) → length s ≤ 45 → All (λ c. 0 < c) s → buffered s ≡ some s
unfolding buffered
buffered_short s le h = ground (arith, c_string_whole s h)

pub unbracketed_plain : (k : ℕ) (s : Text) → front s ≢ 91 → unbracketed k s ≡ s
unfolding unbracketed
unbracketed_plain k s h = ground arith

take_append : (a s : Text) (k : ℕ) → k ≡ length a → take k (a ++ s) ≡ a
take_append a s k e = ap (λ k. take k (a ++ s)) e ∙ take-length a s

pub unbracketed_inside :
    (k : ℕ) (s : Text) → k ≡ length s + 2 → unbracketed k (91 ∷ s ++ 93 ∷ []) ≡ s
unfolding unbracketed
unbracketed_inside k s e =
    rw (back-append (91 ∷ s) 93) (take_append s (93 ∷ []) (k - 2) (omega (arith, e)))

module _ (big_endian : Bool) (inet_pton4 : Text → Option IPv4Address)
    (inet_pton6 : Text → Option IPv6Address) where
  -- An address text, a colon and a port in decimal digits are taken apart again.
  pub taken_apart :
      (a : Text) (n : ℕ)
      → 0 < length a
      → n < 2 ^ 16
      → from_str big_endian inet_pton4 inet_pton6 (a ++ 58 ∷ to_chars 5 n [])
        ≡ with_port big_endian inet_pton4 inet_pton6 n (length a) a
  unfolding from_str with_texts from_chars
  taken_apart a n pos lt =
      let p = to_chars 5 n [] in
      let digits = all_digits-to_chars 5 n [] refl in
      let place = rfind-append a p 58 (rfind_digits p digits) in
      let total = length-append a (58 ∷ p) in
      let long : leb (length (a ++ 58 ∷ p)) 1 ≡ false = ground arith in
      let nonzero : (length a == 0) ≡ false = ground arith in
      let short : ltb 5 (length p) ≡ false = ground (arith, length-to_chars 5 n []) in
      let number = from_chars-to_chars 5 n [] (omega arith) (omega arith) in
      let small : ltb 65535 n ≡ false = ground arith in
      rw
        (
          long,
          place,
          nonzero,
          take-length a (58 ∷ p),
          drop-length a p 58,
          short,
          digits,
          number,
          small,
        )
        refl

  -- A text that fits the buffer is what `IPAddress::from_str` gets.
  pub fits_buffer :
      (n k : ℕ) (s a : Text) (x : IpAddress)
      → unbracketed k s ≡ a
      → length a ≤ 45
      → All (λ c. 0 < c) a
      → ip.from_str inet_pton4 inet_pton6 a ≡ returns (ok x)
      → with_port big_endian inet_pton4 inet_pton6 n k s
        ≡ some (returns (ok (record { addr = x; port = hton16 big_endian n })))
  unfolding with_port map map_err
  fits_buffer n k s a x e le h r =
      ap (with_address big_endian inet_pton4 inet_pton6 n) (ap buffered e ∙ buffered_short a le h)
      ∙ rw r refl

with_port_undefined :
    (big_endian : Bool) (inet_pton4 : Text → Option IPv4Address)
    (inet_pton6 : Text → Option IPv6Address) (n k : ℕ) (s : Text)
    → (with_port big_endian inet_pton4 inet_pton6 n k s ≡ none) ↔ (45 < length (unbracketed k s))
unfolding with_port buffered
with_port_undefined big_endian inet_pton4 inet_pton6 n k s =
    elim (Bool-cases (ltb (length (unbracketed k s)) 46)) [
      | inl e ↦ rw e (λ h. absurd (cc), λ h. absurd (ground arith))
      | inr e ↦ rw e (λ h. ground arith, λ h. refl)
    ]

-- Let a text be an address text that is not empty, a colon, and a port in decimal digits. What
-- `from_str` does is undefined, since it writes beyond its buffer or reads beyond it, exactly when the
-- address text, without the brackets around it if there are any, has more than 45 characters.
pub from_str_undefined_iff :
    (big_endian : Bool) (inet_pton4 : Text → Option IPv4Address)
    (inet_pton6 : Text → Option IPv6Address) (a : Text) (n : ℕ)
    → 0 < length a
    → n < 2 ^ 16
    → (from_str big_endian inet_pton4 inet_pton6 (a ++ 58 ∷ to_chars 5 n []) ≡ none)
      ↔ (45 < length (unbracketed (length a) a))
from_str_undefined_iff big_endian inet_pton4 inet_pton6 a n pos lt =
    rw (taken_apart big_endian inet_pton4 inet_pton6 a n pos lt)
      (with_port_undefined big_endian inet_pton4 inet_pton6 n (length a) a)
