-- ===== src/Io/IoUring/Filled.antt =====
-- What the loop of `submit` (bipolar/io/io_uring.cpp) does to the entries of the ring.
use bipolar.Common.{
  ℕ, zero, suc, ◌+◌, ◌-◌, ◌%◌, ◌^◌, ◌≤◌, ◌<◌, ◌≡◌, ◌≢◌, refl, sym, ap, ◌∙◌, subst, ◌∷◌, ◌++◌, put,
  u32, arith,
}
use bipolar.Common.Rings.{bit_and_mask, place_apart, place_wrap, two_pow_pos}
use bipolar.Io.IoUring.{Filling, fill, fill_one}
use Prim.Native.Nat.{bit_and}
use native.Mathlib.Nat.{mod-lt}
use bipolar.Io.IoUring.Views.{view, view-append, view_ext, at_start, further, below}

-- The place of a position in a ring of 2^k entries.
abbrev pub slot : ℕ → ℕ → ℕ
slot k p = bit_and p (2 ^ k - 1)

pub slot-lt : (k p : ℕ) → slot k p < 2 ^ k
slot-lt k p = rw (bit_and_mask k p) (mod-lt p (two_pow_pos k))

slot_wrap : (k p : ℕ) → k ≤ 32 → slot k (u32 p) ≡ p % 2 ^ k
slot_wrap k p le = bit_and_mask k (u32 p) ∙ place_wrap k p le

pub slots_apart :
    (k p i j : ℕ) → k ≤ 32 → i < j → j < i + 2 ^ k → slot k (u32 (p + j)) ≢ slot k (u32 (p + i))
slots_apart k p i j le lt near same =
    let m = 2 ^ k in
    let d = j - i in
    let e : p + i + d ≡ p + j = omega arith in
    place_apart m (p + i) d (omega arith) (omega arith)
      (ap (λ x. x % m) e ∙ sym (slot_wrap k (p + j) le) ∙ same ∙ slot_wrap k (p + i) le)

put_other : (f : ℕ → ℕ) (k a j : ℕ) → k ≢ j → put f k a j ≡ f j
put_other f k a j h = ground arith

put_same : (f : ℕ → ℕ) (k a : ℕ) → put f k a k ≡ a
put_same f k a = ground arith

-- The loop touches no other place.
pub fill-array_other :
    (mask n j : ℕ) (f : Filling)
    → f.ktail < 2 ^ 32
    → ((i : ℕ) → i < n → bit_and (u32 (f.ktail + i)) mask ≢ j)
    → (fill mask n f).array j ≡ f.array j
unfolding fill
fill-array_other mask zero j f lt away = refl
fill-array_other mask (suc n) j f lt away =
    let first : bit_and f.ktail mask ≢ j =
      subst (λ q. bit_and q mask ≢ j) (at_start f.ktail lt) (away 0 (omega arith)) in
    fill-array_other mask n j (fill_one mask f) (below (f.ktail + 1)) (λ i l.
      subst (λ q. bit_and q mask ≢ j) (sym (further f.ktail i)) (away (suc i) (omega arith)))
    ∙ put_other f.array (bit_and f.ktail mask) (bit_and f.sqe_head mask) j first

pub fill-positions :
    (mask n : ℕ) (f : Filling)
    → f.ktail < 2 ^ 32
    → f.sqe_head < 2 ^ 32
    → f.submitted < 2 ^ 32
    → ((fill mask n f).ktail ≡ u32 (f.ktail + n))
      × ((fill mask n f).sqe_head ≡ u32 (f.sqe_head + n))
      × ((fill mask n f).submitted ≡ u32 (f.submitted + n))
unfolding fill
fill-positions mask zero f l l' l'' = (omega arith, omega arith, omega arith)
fill-positions mask (suc n) f l l' l'' =
    let (a, b, c) =
      fill-positions mask n (fill_one mask f) (below (f.ktail + 1)) (below (f.sqe_head + 1))
        (below (f.submitted + 1)) in
    (a ∙ further f.ktail n, b ∙ further f.sqe_head n, c ∙ further f.submitted n)

-- The places that it fills hold the places of the entries that it goes through.
pub fill-view :
    (k n : ℕ) (f : Filling)
    → k ≤ 32
    → n ≤ 2 ^ k
    → f.ktail < 2 ^ 32
    → view n f.ktail (λ p. (fill (2 ^ k - 1) n f).array (slot k p)) ≡ view n f.sqe_head (slot k)
unfolding fill
fill-view k zero f le room lt = refl
fill-view k (suc n) f le room lt =
    let mask = 2 ^ k - 1 in
    let first : (fill mask n (fill_one mask f)).array (slot k f.ktail) ≡ slot k f.sqe_head =
      fill-array_other mask n (slot k f.ktail) (fill_one mask f) (below (f.ktail + 1)) (λ i l same.
        slots_apart k f.ktail 0 (suc i) le (omega arith) (omega arith)
          (ap (slot k) (sym (further f.ktail i)) ∙ same ∙ ap (slot k) (sym (at_start f.ktail lt))))
      ∙ put_same f.array (slot k f.ktail) (slot k f.sqe_head) in
    let others = fill-view k n (fill_one mask f) le (omega arith) (below (f.ktail + 1)) in
    ap (λ x. x ∷ view n (u32 (f.ktail + 1)) (λ p. (fill mask n (fill_one mask f)).array (slot k p)))
      first
    ∙ ap (λ xs. slot k f.sqe_head ∷ xs) others

-- The entries that were there are still there, behind the new tail.
kept_view :
    (k c n p : ℕ) (f : Filling)
    → k ≤ 32
    → c + n ≤ 2 ^ k
    → p < 2 ^ 32
    → f.ktail ≡ u32 (p + c)
    → view c p (λ p. (fill (2 ^ k - 1) n f).array (slot k p)) ≡ view c p (λ p. f.array (slot k p))
kept_view k c n p f le room lt e =
    view_ext c p (λ p. (fill (2 ^ k - 1) n f).array (slot k p)) (λ p. f.array (slot k p)) lt
      (λ i l.
        fill-array_other (2 ^ k - 1) n (slot k (u32 (p + i))) f (omega (arith, e)) (λ j l' same.
          let there : u32 (f.ktail + j) ≡ u32 (p + (c + j)) = omega (arith, e) in
          slots_apart k p i (c + j) le (omega arith) (omega arith)
            (ap (slot k) (sym there) ∙ same)))

-- Filling n places behind the c that are in the ring appends the n entries from `sqe_head` on.
pub filled_view :
    (k c n p : ℕ) (f : Filling)
    → k ≤ 31
    → c + n ≤ 2 ^ k
    → p < 2 ^ 32
    → f.ktail ≡ u32 (p + c)
    → view (c + n) p (λ p. (fill (2 ^ k - 1) n f).array (slot k p))
      ≡ view c p (λ p. f.array (slot k p)) ++ view n f.sqe_head (slot k)
filled_view k c n p f le room lt e =
    let g : ℕ → ℕ = λ p. (fill (2 ^ k - 1) n f).array (slot k p) in
    let old = kept_view k c n p f (omega arith) room lt e in
    let new : view n (u32 (p + c)) g ≡ view n f.sqe_head (slot k) =
      ap (λ q. view n q g) (sym e)
      ∙ fill-view k n f (omega arith) (omega arith) (omega (arith, e)) in
    view-append c n (c + n) p g lt refl
    ∙ ap (λ xs. xs ++ view n (u32 (p + c)) g) old
    ∙ ap (λ xs. view c p (λ p. f.array (slot k p)) ++ xs) new
