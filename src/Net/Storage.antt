-- ===== src/Net/Storage.antt =====
-- bipolar/net/ip_address.hpp: the unions `AddressStorage` of the addresses. An address is the bytes
-- of its union in the order of memory, which is network order; the other members of the union are
-- read from these bytes, so `big_endian` is a parameter (bipolar/core/byteorder.hpp). The bytes of a
-- well-formed address are below 256.
pub mod Arrays
use bipolar.Common.{
  ℕ, ◌+◌, ◌*◌, ◌/◌, ◌%◌, ◌<◌, Bool, true, false, not, ltb, ◌==◌, ◌&&◌, ◌||◌, if◌then◌else◌, List,
  [], ◌∷◌, Option, none, some, All,
}
use bipolar.Core.Byteorder.{join, split, hton32, ntoh32}

-- Four bytes in the order of memory.
pub record Bytes : Type 0 where
  pub b0 : ℕ
  pub b1 : ℕ
  pub b2 : ℕ
  pub b3 : ℕ

abbrev pub bytes : ℕ → ℕ → ℕ → ℕ → Bytes
bytes a b c d = record { b0 = a; b1 = b; b2 = c; b3 = d }

abbrev pub IsBytes : Bytes → Type 0
IsBytes v = (v.b0 < 256) × (v.b1 < 256) × (v.b2 < 256) × (v.b3 < 256)

abbrev pub IPv4Address : Type 0
IPv4Address = Bytes

-- The sixteen bytes in groups of four: `w0` to `w3` hold the bytes of `addr32[0]` to `addr32[3]`.
pub record IPv6Address : Type 0 where
  pub w0 : Bytes
  pub w1 : Bytes
  pub w2 : Bytes
  pub w3 : Bytes

abbrev pub words : Bytes → Bytes → Bytes → Bytes → IPv6Address
words a b c d = record { w0 = a; w1 = b; w2 = c; w3 = d }

abbrev pub zeros : Bytes
zeros = bytes 0 0 0 0

-- `<` of two arrays.
unfoldable pub less_array : List ℕ → List ℕ → Bool
less_array xs [] = false
less_array [] (y ∷ ys) = true
less_array (x ∷ xs) (y ∷ ys) =
    let rest = less_array xs ys in if ltb x y then true else if ltb y x then false else rest

unfoldable pub equal_array : List ℕ → List ℕ → Bool
equal_array [] [] = true
equal_array [] (y ∷ ys) = false
equal_array (x ∷ xs) [] = false
equal_array (x ∷ xs) (y ∷ ys) = let rest = equal_array xs ys in (x == y) && rest

-- The members of the unions, read from and written to the bytes of memory.
module _ (big_endian : Bool) where
  unfoldable pub load32 : Bytes → ℕ
  load32 v = if big_endian then join v.b0 v.b1 v.b2 v.b3 else join v.b3 v.b2 v.b1 v.b0

  unfoldable pub store32 : ℕ → Bytes
  store32 n = let (a, b, c, d) = split n in if big_endian then bytes a b c d else bytes d c b a

  -- `addr16[2 * i]` and `addr16[2 * i + 1]` of the group `addr32[i]`.
  unfoldable pub load16 : ℕ → ℕ → ℕ
  load16 a b = if big_endian then a * 256 + b else b * 256 + a
