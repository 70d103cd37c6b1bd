-- ===== src/Core/Byteorder/Laws.antt =====
-- Conversions between the byte orders (bipolar/core/byteorder.hpp).
use bipolar.Common.{
  ℕ, ◌+◌, ◌*◌, ◌/◌, ◌%◌, ◌^◌, ◌<◌, Bool, true, false, ◌≡◌, refl, sym, ap, ◌∙◌, arith,
}
use bipolar.Core.Byteorder.{
  join, split, bswap16, bswap32, bswap64, hton8, hton16, hton32, hton64, ntoh8, ntoh16, ntoh32,
  ntoh64,
}

pub split-join :
    (a b c d : ℕ) → a < 256 → b < 256 → c < 256 → d < 256 → split (join a b c d) ≡ (a, b, c, d)
split-join a b c d p q r s = ground arith

pub join-split : (v : ℕ) → v < 2 ^ 32 → (let (a, b, c, d) = split v in join a b c d) ≡ v
join-split v p = omega arith

pub bswap32-join :
    (a b c d : ℕ) → a < 256 → b < 256 → c < 256 → d < 256 → bswap32 (join a b c d) ≡ join d c b a
unfolding bswap32
bswap32-join a b c d p q r s = ground (arith, split-join a b c d p q r s)

bswap16_twice : (v : ℕ) → v < 2 ^ 16 → bswap16 (bswap16 v) ≡ v
bswap16_twice v p = omega arith

pub bswap32-bound : (v : ℕ) → bswap32 v < 2 ^ 32
unfolding bswap32
bswap32-bound v = omega arith

pub bswap32_twice : (v : ℕ) → v < 2 ^ 32 → bswap32 (bswap32 v) ≡ v
bswap32_twice v p =
    let (a, b, c, d) = split v in
    let e = bswap32-join a b c d (omega arith) (omega arith) (omega arith) (omega arith) in
    let e' = bswap32-join d c b a (omega arith) (omega arith) (omega arith) (omega arith) in
    ap bswap32 (sym (ap bswap32 (join-split v p)) ∙ e) ∙ e' ∙ join-split v p

halves :
    (l h : ℕ)
    → l < 2 ^ 32
    → h < 2 ^ 32
    → bswap64 (h * 4294967296 + l) ≡ bswap32 l * 4294967296 + bswap32 h
unfolding bswap64
halves l h p q =
    let e : (h * 4294967296 + l) % 4294967296 ≡ l = omega arith in
    let e' : (h * 4294967296 + l) / 4294967296 % 4294967296 ≡ h = omega arith in rw (e, e')

bswap64_twice : (v : ℕ) → v < 2 ^ 64 → bswap64 (bswap64 v) ≡ v
bswap64_twice v p =
    let l = v % 4294967296 in
    let h = v / 4294967296 in
    let e : h * 4294967296 + l ≡ v = omega arith in
    let first = halves l h (omega arith) (omega arith) in
    let second = halves (bswap32 h) (bswap32 l) (bswap32-bound h) (bswap32-bound l) in
    let back : bswap32 (bswap32 h) * 4294967296 + bswap32 (bswap32 l) ≡ h * 4294967296 + l =
      rw (bswap32_twice h (omega arith), bswap32_twice l (omega arith)) in
    ap bswap64 (sym (ap bswap64 e) ∙ first) ∙ second ∙ back ∙ e

-- On either kind of machine, a number of 8, 16, 32 or 64 bits that is converted to network byte
-- order and back is the same number.
pub ntoh-hton :
    (big_endian : Bool) (a b c d : ℕ)
    → b < 2 ^ 16
    → c < 2 ^ 32
    → d < 2 ^ 64
    → (ntoh8 big_endian (hton8 big_endian a) ≡ a)
      × (ntoh16 big_endian (hton16 big_endian b) ≡ b)
      × (ntoh32 big_endian (hton32 big_endian c) ≡ c)
      × (ntoh64 big_endian (hton64 big_endian d) ≡ d)
unfolding hton8 hton16 hton32 hton64 ntoh8 ntoh16 ntoh32 ntoh64
ntoh-hton true a b c d p q r = (refl, refl, refl, refl)
ntoh-hton false a b c d p q r = (refl, bswap16_twice b p, bswap32_twice c q, bswap64_twice d r)
