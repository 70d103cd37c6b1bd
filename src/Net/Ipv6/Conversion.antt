-- ===== src/Net/Ipv6/Conversion.antt =====
-- `IPv6Address::to_ipv4` (bipolar/net/ip_address.cpp).
use bipolar.Common.{
  ℕ, ◌<◌, Bool, true, false, not, ◌==◌, ◌&&◌, ◌||◌, if◌then◌else◌, ◌≡◌, refl, sym, ap, subst, ◌∙◌,
  ◌↔◌, ◌⊎◌, inl, inr, none, some, Bool-cases, arith,
}
use bipolar.Net.Storage.{Bytes, IsBytes, zeros, IPv4Address, IPv6Address, load16}
use bipolar.Net.Ipv4.{to_ipv6_compatible, to_ipv6_mapped}
use bipolar.Net.Ipv4.Laws.{of_octets_lem}
use bipolar.Net.Ipv6.{to_ipv4, not_zero}

-- All sixteen bytes are below 256.
abbrev pub IsWords : IPv6Address → Type 0
IsWords v = IsBytes v.w0 × IsBytes v.w1 × IsBytes v.w2 × IsBytes v.w3

module _ (big_endian : Bool) where
  load16_zero : (a b : ℕ) → not_zero (load16 big_endian a b) ≡ false → (a ≡ 0) × (b ≡ 0)
  unfolding not_zero load16
  load16_zero a b h = elim (Bool-cases big_endian) [ inl e ↦ ground arith | inr e ↦ ground arith ]

  load16_ones :
      (a b : ℕ)
      → a < 256
      → b < 256
      → (load16 big_endian a b == 65535) ≡ true
      → (a ≡ 255) × (b ≡ 255)
  unfolding load16
  load16_ones a b p q h = elim (Bool-cases big_endian) [
    | inl e ↦ ground arith
    | inr e ↦ ground arith
  ]

  zero_word :
      (v : Bytes)
      → not_zero (load16 big_endian v.b0 v.b1) ≡ false
      → not_zero (load16 big_endian v.b2 v.b3) ≡ false
      → v ≡ zeros
  zero_word v h h' =
      let (p, q) = load16_zero v.b0 v.b1 h in let (r, s) = load16_zero v.b2 v.b3 h' in cc

embedded :
    (big_endian : Bool) (v : IPv4Address)
    → IsBytes v
    → (to_ipv4 big_endian (to_ipv6_compatible v) ≡ some v)
      × (to_ipv4 big_endian (to_ipv6_mapped v) ≡ some v)
unfolding to_ipv4 to_ipv6_compatible to_ipv6_mapped load16 not_zero
embedded true v h =
    let e = ap some (of_octets_lem true v.b0 v.b1 v.b2 v.b3 h.0 h.1 h.2 h.3) in (e, e)
embedded false v h =
    let e = ap some (of_octets_lem false v.b0 v.b1 v.b2 v.b3 h.0 h.1 h.2 h.3) in (e, e)

passed :
    (p q : Bool) {x a : IPv4Address}
    → (if p then none else if q then none else some x) ≡ some a
    → (p ≡ false) × (q ≡ false) × (x ≡ a)
passed true q h = absurd (cc)
passed false true h = absurd (cc)
passed false false h = (refl, refl, ground arith)

all_false :
    (a b c d e : Bool)
    → (a || b || c || d || e) ≡ false
    → (a ≡ false) × (b ≡ false) × (c ≡ false) × (d ≡ false) × (e ≡ false)
all_false a b c d e h = ground arith

marker :
    (big_endian : Bool) (a b : ℕ)
    → a < 256
    → b < 256
    → (not_zero (load16 big_endian a b) && not (load16 big_endian a b == 65535)) ≡ false
    → ((a ≡ 0) × (b ≡ 0)) ⊎ ((a ≡ 255) × (b ≡ 255))
marker big_endian a b p q h = elim (Bool-cases (not_zero (load16 big_endian a b))) [
  | inl e ↦ inr (load16_ones big_endian a b p q (ground arith))
  | inr e ↦ inl (load16_zero big_endian a b e)
]

extracted :
    (big_endian : Bool) (v : IPv6Address) (a : IPv4Address)
    → IsWords v
    → to_ipv4 big_endian v ≡ some a
    → (v ≡ to_ipv6_compatible a) ⊎ (v ≡ to_ipv6_mapped a)
unfolding to_ipv4 to_ipv6_compatible to_ipv6_mapped
extracted big_endian v a h e =
    let (first, second, same) = passed _ _ e in
    let (p, q, r, s, t) = all_false _ _ _ _ _ first in
    let w =
      sym (of_octets_lem big_endian v.w3.b0 v.w3.b1 v.w3.b2 v.w3.b3 h.3.0 h.3.1 h.3.2 h.3.3)
      ∙ same in
    let z = zero_word big_endian v.w0 p q in
    let z' = zero_word big_endian v.w1 r s in
    let (m, n) = load16_zero big_endian v.w2.b0 v.w2.b1 t in
    elim (marker big_endian v.w2.b2 v.w2.b3 h.2.2 h.2.3 second) [ inl f ↦ inl cc | inr f ↦ inr cc ]

-- On either kind of machine, for a well-formed IPv6 address: `to_ipv4` gives an IPv4 address exactly
-- when `to_ipv6_compatible` or `to_ipv6_mapped` of that address is the IPv6 address.
pub to_ipv4_iff :
    (big_endian : Bool) (v : IPv6Address) (a : IPv4Address)
    → IsWords v
    → (to_ipv4 big_endian v ≡ some a) ↔ ((v ≡ to_ipv6_compatible a) ⊎ (v ≡ to_ipv6_mapped a))
unfolding to_ipv6_compatible to_ipv6_mapped
to_ipv4_iff big_endian v a h = (
  extracted big_endian v a h,
  λ e. elim e [
    | inl p ↦
        ap (to_ipv4 big_endian) p ∙ (embedded big_endian a (subst IsBytes (ap (λ u. u.w3) p) h.3)).0
    | inr p ↦
        ap (to_ipv4 big_endian) p ∙ (embedded big_endian a (subst IsBytes (ap (λ u. u.w3) p) h.3)).1
  ],
)
