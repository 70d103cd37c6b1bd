-- ===== src/Net/Ipv4/Laws.antt =====
-- Construction and comparison of `IPv4Address` (bipolar/net/ip_address.hpp).
use bipolar.Common.{
  ℕ, ◌<◌, Bool, true, false, ltb, ◌≡◌, refl, sym, ap, ◌∙◌, ◌↔◌, List, [], ◌∷◌, ==_iff, arith,
}
use bipolar.Core.Byteorder.{join, split, hton32, ntoh32}
use bipolar.Core.Byteorder.Laws.{split-join, bswap32-join}
use bipolar.Net.Storage.{bytes, IsBytes, IPv4Address, load32, store32, less_array}
use bipolar.Net.Ipv4.{of_octets, lt, eq, to_long}

-- On either kind of machine the address made of four octets has these in memory, in their order.
pub of_octets_lem :
    (big_endian : Bool) (a b c d : ℕ)
    → a < 256
    → b < 256
    → c < 256
    → d < 256
    → of_octets big_endian a b c d ≡ bytes a b c d
unfolding of_octets hton32 store32
of_octets_lem true a b c d p q r s = ground (arith, split-join a b c d p q r s)
of_octets_lem false a b c d p q r s =
    ground (arith, bswap32-join a b c d p q r s, split-join d c b a s r q p)

long_join :
    (big_endian : Bool) (v : IPv4Address)
    → IsBytes v
    → ntoh32 big_endian (to_long big_endian v) ≡ join v.b0 v.b1 v.b2 v.b3
unfolding to_long load32 ntoh32
long_join true v h = refl
long_join false v h = bswap32-join v.b3 v.b2 v.b1 v.b0 h.3 h.2 h.1 h.0

abbrev pub octet_list : IPv4Address → List ℕ
octet_list v = v.b0 ∷ v.b1 ∷ v.b2 ∷ v.b3 ∷ []

join_less :
    (a b c d a' b' c' d' : ℕ)
    → IsBytes (bytes a b c d)
    → IsBytes (bytes a' b' c' d')
    → ltb (join a b c d) (join a' b' c' d')
      ≡ less_array (a ∷ b ∷ c ∷ d ∷ []) (a' ∷ b' ∷ c' ∷ d' ∷ [])
unfolding less_array
join_less a b c d a' b' c' d' h h' = ground arith

-- On either kind of machine, `==` of two well-formed addresses decides equality, and `<` is the
-- lexicographic order of their octets.
pub comparisons_iff :
    (big_endian : Bool) (lhs rhs : IPv4Address)
    → IsBytes lhs
    → IsBytes rhs
    → ((eq big_endian lhs rhs ≡ true) ↔ (lhs ≡ rhs))
      × (lt big_endian lhs rhs ≡ less_array (octet_list lhs) (octet_list rhs))
unfolding eq lt
comparisons_iff big_endian lhs rhs h h' = (
  (
    λ e. same (ground (arith, ==_iff (to_long big_endian lhs) (to_long big_endian rhs))),
    λ e. (==_iff (to_long big_endian lhs) (to_long big_endian rhs)).1 (ap (to_long big_endian) e),
  ),
  rw (long_join big_endian lhs h, long_join big_endian rhs h')
      (join_less lhs.b0 lhs.b1 lhs.b2 lhs.b3 rhs.b0 rhs.b1 rhs.b2 rhs.b3 h h'),
)
  where
    same : to_long big_endian lhs ≡ to_long big_endian rhs → lhs ≡ rhs
    same e =
        let j =
          sym (long_join big_endian lhs h)
          ∙ ap (ntoh32 big_endian) e
          ∙ long_join big_endian rhs h' in
        let s =
          sym (split-join lhs.b0 lhs.b1 lhs.b2 lhs.b3 h.0 h.1 h.2 h.3)
          ∙ ap split j
          ∙ split-join rhs.b0 rhs.b1 rhs.b2 rhs.b3 h'.0 h'.1 h'.2 h'.3 in
        ap (λ (t : ℕ × ℕ × ℕ × ℕ). bytes t.0 t.1 t.2 t.3) s
