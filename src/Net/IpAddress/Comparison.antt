-- ===== src/Net/IpAddress/Comparison.antt =====
-- The invariant of `IPAddress`, its comparisons and `from_str` (bipolar/net/ip_address.hpp).
use bipolar.Common.{
  Bool, true, false, Option, none, some, ◌≡◌, ◌≢◌, refl, sym, ap, subst, ◌∙◌, ◌↔◌, arith,
}
use bipolar.Common.Outcome.{returns, throws}
use bipolar.Core.Result.{Result, ok, err, map, or_else}
use bipolar.Net.Storage.{IsBytes, IPv4Address, IPv6Address}
use bipolar.Net.Ipv4.Laws.{comparisons_iff}
use bipolar.Net.Ipv6.Conversion.{IsWords}
use bipolar.Net.Ipv6.Order.{eq_iff_same}
use bipolar.Net.IpAddress.{
  Family, unspec, inet, inet6, Stored, monostate, v4, v6, IpAddress, same_family, of_ipv4, of_ipv6,
  assign_ipv4, assign_ipv6, reset, eq, lt, le, from_str, FormatError, invalid_ip, checked, visit,
}

-- The family is that of the address in the variant, which is well-formed.
abbrev pub Agrees : Family → Stored → Type 0
Agrees unspec monostate = Unit {0}
Agrees inet (v4 a) = IsBytes a
Agrees inet6 (v6 a) = IsWords a
Agrees _ _ = ⊥

abbrev pub IsSound : IpAddress → Type 0
IsSound this = Agrees this.family this.addr

abbrev pub of_stored : Stored → IpAddress
of_stored monostate = record { family = unspec; addr = monostate }
of_stored (v4 a) = record { family = inet; addr = v4 a }
of_stored (v6 a) = record { family = inet6; addr = v6 a }

abbrev pub IsStored : Stored → Type 0
IsStored monostate = Unit {0}
IsStored (v4 a) = IsBytes a
IsStored (v6 a) = IsWords a

sound_parts :
    (f : Family) (s : Stored)
    → Agrees f s
    → IsStored s × (record { family = f; addr = s } ≡ of_stored s)
sound_parts unspec monostate p = (tt, refl)
sound_parts inet (v4 a) p = (p, refl)
sound_parts inet6 (v6 a) p = (p, refl)
sound_parts unspec (v4 a) p = absurd p
sound_parts unspec (v6 a) p = absurd p
sound_parts inet monostate p = absurd p
sound_parts inet (v6 a) p = absurd p
sound_parts inet6 monostate p = absurd p
sound_parts inet6 (v4 a) p = absurd p

pub sound_view : (a : IpAddress) → IsSound a → (s : Stored) × IsStored s × (a ≡ of_stored s)
sound_view a p = let (w, e) = sound_parts a.family a.addr p in (a.addr, w, e)

abbrev Outcomes : Bool → IpAddress → IpAddress → Type 0
Outcomes big_endian lhs rhs =
    ((eq big_endian lhs rhs ≡ returns true) ↔ ((lhs ≡ rhs) × (lhs.family ≢ unspec)))
    × ((eq big_endian lhs rhs ≡ throws none) ↔ ((lhs.family ≡ unspec) × (rhs.family ≡ unspec)))

address4 : IPv4Address → Stored → IPv4Address
address4 d monostate = d
address4 d (v4 a) = a
address4 d (v6 a) = d

address6 : IPv6Address → Stored → IPv6Address
address6 d monostate = d
address6 d (v4 a) = d
address6 d (v6 a) = a

outcomes :
    (big_endian : Bool) (s t : Stored)
    → IsStored s
    → IsStored t
    → Outcomes big_endian (of_stored s) (of_stored t)
unfolding eq address4 address6
outcomes big_endian monostate monostate p q =
    ((λ h. absurd (cc), λ h. absurd (h.1 refl)), (λ h. (refl, refl), λ h. refl))
outcomes big_endian monostate (v4 b) p q =
    ((λ h. absurd (cc), λ h. absurd (h.1 refl)), (λ h. absurd (cc), λ h. absurd (cc)))
outcomes big_endian monostate (v6 b) p q =
    ((λ h. absurd (cc), λ h. absurd (h.1 refl)), (λ h. absurd (cc), λ h. absurd (cc)))
outcomes big_endian (v4 a) monostate p q =
    ((λ h. absurd (cc), λ h. absurd (cc)), (λ h. absurd (cc), λ h. absurd (cc)))
outcomes big_endian (v4 a) (v4 b) p q =
    let same = (comparisons_iff big_endian a b p q).0 in
    (
      (
        λ h. (ap (λ x. of_stored (v4 x)) (same.0 (ground arith)), λ e. cc),
        λ h. ap returns (same.1 (ap (λ u. address4 a u.addr) h.0)),
      ),
      (λ h. absurd (cc), λ h. absurd (cc)),
    )
outcomes big_endian (v4 a) (v6 b) p q =
    ((λ h. absurd (cc), λ h. absurd (cc)), (λ h. absurd (cc), λ h. absurd (cc)))
outcomes big_endian (v6 a) monostate p q =
    ((λ h. absurd (cc), λ h. absurd (cc)), (λ h. absurd (cc), λ h. absurd (cc)))
outcomes big_endian (v6 a) (v4 b) p q =
    ((λ h. absurd (cc), λ h. absurd (cc)), (λ h. absurd (cc), λ h. absurd (cc)))
outcomes big_endian (v6 a) (v6 b) p q =
    let same = eq_iff_same big_endian a b p q in
    (
      (
        λ h. (ap (λ x. of_stored (v6 x)) (same.0 (ground arith)), λ e. cc),
        λ h. ap returns (same.1 (ap (λ u. address6 a u.addr) h.0)),
      ),
      (λ h. absurd (cc), λ h. absurd (cc)),
    )

-- For two sound addresses on either kind of machine: `==` returns true exactly when they are the
-- same and not of the unspecified family, and it throws exactly when both are of that family.
pub eq_outcomes_iff :
    (big_endian : Bool) (lhs rhs : IpAddress)
    → IsSound lhs
    → IsSound rhs
    → ((eq big_endian lhs rhs ≡ returns true) ↔ ((lhs ≡ rhs) × (lhs.family ≢ unspec)))
      × ((eq big_endian lhs rhs ≡ throws none) ↔ ((lhs.family ≡ unspec) × (rhs.family ≡ unspec)))
unfolding eq
eq_outcomes_iff big_endian lhs rhs p q =
    let (s, w, e) = sound_view lhs p in
    let (t, w', e') = sound_view rhs q in
    subst (λ u. Outcomes big_endian u rhs) (sym e)
      (subst (Outcomes big_endian (of_stored s)) (sym e') (outcomes big_endian s t w w'))

different : (f g : Family) → same_family f g ≡ false → same_family g f ≡ false
different unspec unspec p = p
different unspec inet p = refl
different unspec inet6 p = refl
different inet unspec p = refl
different inet inet p = p
different inet inet6 p = refl
different inet6 unspec p = refl
different inet6 inet p = refl
different inet6 inet6 p = p

-- Two addresses of different families are not equal and neither is less, and yet each is less than
-- or equal to the other one.
pub families_unordered :
    (big_endian : Bool) (lhs rhs : IpAddress)
    → same_family lhs.family rhs.family ≡ false
    → (eq big_endian lhs rhs ≡ returns false)
      × (lt big_endian lhs rhs ≡ returns false)
      × (lt big_endian rhs lhs ≡ returns false)
      × (le big_endian lhs rhs ≡ returns true)
      × (le big_endian rhs lhs ≡ returns true)
unfolding eq lt le
families_unordered big_endian lhs rhs p =
    let p' = different lhs.family rhs.family p in (rw p, rw p, rw p', rw p', rw p)

-- What `visit` is to return: the function of the alternative that the variant holds.
abbrev pub visited {ℓ} : {A : Type ℓ} → (IPv4Address → A) → (IPv6Address → A) → A → Stored → A
visited f g u monostate = u
visited f g u (v4 a) = f a
visited f g u (v6 a) = g a

visit_stored {ℓ} :
    {A : Type ℓ} (f : IPv4Address → A) (g : IPv6Address → A) (u : A) (s : Stored)
    → visit f g u (of_stored s) ≡ returns (visited f g u s)
unfolding visit
visit_stored f g u monostate = refl
visit_stored f g u (v4 a) = refl
visit_stored f g u (v6 a) = refl

-- Whatever a sound address was before, it is sound after the assignment of a well-formed IPv4 or
-- IPv6 address and after `reset`; and `visit` of a sound address never throws, and returns the
-- function of the address that it holds.
pub changes_and_visit {ℓ} :
    {A : Type ℓ} (f : IPv4Address → A) (g : IPv6Address → A) (u : A) (a : IPv4Address)
    (b : IPv6Address) (this : IpAddress)
    → IsBytes a
    → IsWords b
    → IsSound this
    → IsSound (assign_ipv4 a this)
      × IsSound (assign_ipv6 b this)
      × IsSound (reset this)
      × (visit f g u this ≡ returns (visited f g u this.addr))
unfolding assign_ipv4 assign_ipv6 reset
changes_and_visit f g u a b this p q r =
    let (s, e) = sound_parts this.family this.addr r in
    (p, q, tt, ap (visit f g u) e ∙ visit_stored f g u this.addr)

-- The address that the text stands for: the IPv4 address, or else the IPv6 address.
abbrev pub parsed : Option IPv4Address → Option IPv6Address → Result IpAddress FormatError
parsed (some a) o = ok (of_ipv4 a)
parsed none (some a) = ok (of_ipv6 a)
parsed none none = err invalid_ip

parse_cases :
    (o : Option IPv4Address) (o' : Option IPv6Address)
    → or_else (λ e. map of_ipv6 (checked o')) (map of_ipv4 (checked o)) ≡ returns (parsed o o')
unfolding or_else map
parse_cases (some a) o' = refl
parse_cases none (some b) = refl
parse_cases none none = refl

module _ {Text : Type 0} (inet_pton4 : Text → Option IPv4Address)
    (inet_pton6 : Text → Option IPv6Address) where
  -- `from_str` never throws. It gives the IPv4 address if the text reads as one, else the IPv6
  -- address if it reads as one, else an error.
  pub from_str_lem :
      (sv : Text)
      → from_str inet_pton4 inet_pton6 sv ≡ returns (parsed (inet_pton4 sv) (inet_pton6 sv))
  unfolding from_str
  from_str_lem sv = parse_cases (inet_pton4 sv) (inet_pton6 sv)
