-- ===== src/Net/Ipv6/Order.antt =====
-- The predicates and comparisons of `IPv6Address` (bipolar/net/ip_address.hpp).
use bipolar.Common.{
  ℕ, ◌<◌, Bool, true, false, not, ◌==◌, ◌&&◌, ◌≡◌, refl, ap, ◌∙◌, ◌↔◌, ◌⊎◌, inl, inr, arith,
  Bool-cases,
}
use bipolar.Core.Byteorder.{hton32, bswap32}
use bipolar.Net.Storage.{Bytes, bytes, IsBytes, words, zeros, IPv6Address, load16, load32}
use bipolar.Net.Storage.Arrays.{equal_array_iff, less_array-IsOrder}
use bipolar.Net.Ipv6.{segments, is_unspecified, is_loopback, eq, lt, ne, gt, le, ge}
use bipolar.Net.Ipv6.Conversion.{IsWords}

load32_zero : (big_endian : Bool) (v : Bytes) → (load32 big_endian v == 0) ≡ true → v ≡ zeros
unfolding load32
load32_zero true v h =
    let e : (v.b0 ≡ 0) × (v.b1 ≡ 0) × (v.b2 ≡ 0) × (v.b3 ≡ 0) = ground arith in cc
load32_zero false v h =
    let e : (v.b0 ≡ 0) × (v.b1 ≡ 0) × (v.b2 ≡ 0) × (v.b3 ≡ 0) = ground arith in cc

load32_one :
    (big_endian : Bool) (v : Bytes)
    → IsBytes v
    → (load32 big_endian v == hton32 big_endian 1) ≡ true
    → v ≡ bytes 0 0 0 1
unfolding load32 hton32 bswap32
load32_one true v p h =
    let e : (v.b0 ≡ 0) × (v.b1 ≡ 0) × (v.b2 ≡ 0) × (v.b3 ≡ 1) = ground arith in cc
load32_one false v p h =
    let e : (v.b0 ≡ 0) × (v.b1 ≡ 0) × (v.b2 ≡ 0) × (v.b3 ≡ 1) = ground arith in cc

four_true :
    (a b c d : Bool) → (a && b && c && d) ≡ true → (a ≡ true) × (b ≡ true) × (c ≡ true) × (d ≡ true)
four_true a b c d h = ground arith

none_set : (b : Bool) → is_unspecified b (words zeros zeros zeros zeros) ≡ true
unfolding is_unspecified load32
none_set true = refl
none_set false = refl

one_set : (b : Bool) → is_loopback b (words zeros zeros zeros (bytes 0 0 0 1)) ≡ true
unfolding is_loopback load32 hton32 bswap32
one_set true = refl
one_set false = refl

-- On either kind of machine, for a well-formed address: `is_unspecified` holds exactly of `::`, and
-- `is_loopback` exactly of `::1`.
special_iff :
    (big_endian : Bool) (v : IPv6Address)
    → IsWords v
    → ((is_unspecified big_endian v ≡ true) ↔ (v ≡ words zeros zeros zeros zeros))
      × ((is_loopback big_endian v ≡ true) ↔ (v ≡ words zeros zeros zeros (bytes 0 0 0 1)))
unfolding is_unspecified is_loopback
special_iff big_endian v h = (
  (
    λ e.
        let (p, q, r, s) = four_true _ _ _ _ e in
        let p' = load32_zero big_endian v.w0 p in
        let q' = load32_zero big_endian v.w1 q in
        let r' = load32_zero big_endian v.w2 r in let s' = load32_zero big_endian v.w3 s in cc,
    λ e. ap (is_unspecified big_endian) e ∙ none_set big_endian,
  ),
  (
    λ e.
        let (p, q, r, s) = four_true _ _ _ _ e in
        let p' = load32_zero big_endian v.w0 p in
        let q' = load32_zero big_endian v.w1 q in
        let r' = load32_zero big_endian v.w2 r in let s' = load32_one big_endian v.w3 h.3 s in cc,
    λ e. ap (is_loopback big_endian) e ∙ one_set big_endian,
  ),
)

module _ (big_endian : Bool) where
  load16_same :
      (a b c d : ℕ)
      → a < 256
      → b < 256
      → c < 256
      → d < 256
      → load16 big_endian a b ≡ load16 big_endian c d
      → (a ≡ c) × (b ≡ d)
  unfolding load16
  load16_same a b c d p q r s h = elim (Bool-cases big_endian) [
    | inl e ↦ ground arith
    | inr e ↦ ground arith
  ]

  word_same :
      (v w : Bytes)
      → IsBytes v
      → IsBytes w
      → load16 big_endian v.b0 v.b1 ≡ load16 big_endian w.b0 w.b1
      → load16 big_endian v.b2 v.b3 ≡ load16 big_endian w.b2 w.b3
      → v ≡ w
  word_same v w h h' p q =
      let (a, b) = load16_same v.b0 v.b1 w.b0 w.b1 h.0 h.1 h'.0 h'.1 p in
      let (c, d) = load16_same v.b2 v.b3 w.b2 w.b3 h.2 h.3 h'.2 h'.3 q in cc

  segments_same :
      (v w : IPv6Address)
      → IsWords v
      → IsWords w
      → segments big_endian v ≡ segments big_endian w
      → v ≡ w
  unfolding segments
  segments_same v w h h' e =
      let a = word_same v.w0 w.w0 h.0 h'.0 (ground arith) (ground arith) in
      let b = word_same v.w1 w.w1 h.1 h'.1 (ground arith) (ground arith) in
      let c = word_same v.w2 w.w2 h.2 h'.2 (ground arith) (ground arith) in
      let d = word_same v.w3 w.w3 h.3 h'.3 (ground arith) (ground arith) in cc

  pub eq_iff_same :
      (v w : IPv6Address) → IsWords v → IsWords w → (eq big_endian v w ≡ true) ↔ (v ≡ w)
  unfolding eq
  eq_iff_same v w h h' =
      let both = equal_array_iff (segments big_endian v) (segments big_endian w) in
      (λ e. segments_same v w h h' (both.0 e), λ e. both.1 (ap (segments big_endian) e))

-- On either kind of machine, of two well-formed addresses the first is less, or they are the same,
-- or the second is less; no two of these hold together; and `==` holds exactly where they are the
-- same.
pub trichotomy :
    (big_endian : Bool) (v w : IPv6Address)
    → IsWords v
    → IsWords w
    → ((eq big_endian v w ≡ true) ↔ (v ≡ w))
      × (lt big_endian v v ≡ false)
      × ((lt big_endian v w && lt big_endian w v) ≡ false)
      × ((lt big_endian v w ≡ true) ⊎ (v ≡ w) ⊎ (lt big_endian w v ≡ true))
unfolding lt
trichotomy big_endian v w h h' =
    let o = less_array-IsOrder in
    let xs = segments big_endian v in
    let ys = segments big_endian w in
    (
      eq_iff_same big_endian v w h h',
      o.irrefl xs,
      ground (arith, o.trans xs ys xs, o.irrefl xs),
      elim (o.total xs ys) [
        | inl p ↦ inl p
        | inr (inl p) ↦ inr (inl (segments_same big_endian v w h h' p))
        | inr (inr p) ↦ inr (inr p)
      ],
    )

-- On either kind of machine, of two well-formed addresses: `<=` holds exactly where the first is less
-- or they are the same, `>=` is `<=` the other way round, `>` is its negation, and `!=` holds exactly
-- where they differ.
derived_iff :
    (big_endian : Bool) (v w : IPv6Address)
    → IsWords v
    → IsWords w
    → ((le big_endian v w ≡ true) ↔ ((lt big_endian v w ≡ true) ⊎ (v ≡ w)))
      × (ge big_endian v w ≡ le big_endian w v)
      × (gt big_endian v w ≡ not (le big_endian v w))
      × ((ne big_endian v w ≡ false) ↔ (v ≡ w))
unfolding le gt ge ne
derived_iff big_endian v w h h' =
    let (same, irrefl, asym, total) = trichotomy big_endian v w h h' in
    (
      (
        λ e. elim total [
          | inl p ↦ inl p
          | inr (inl p) ↦ inr p
          | inr (inr p) ↦ ground (arith, e, p)
        ],
        λ e. elim e [
          | inl p ↦ ground (arith, asym, p)
          | inr p ↦ ground (arith, irrefl, ap (λ u. lt big_endian u v) p)
        ],
      ),
      refl,
      ground arith,
      (λ e. same.0 (ground (arith, e)), λ p. ground (arith, same.1 p)),
    )
