-- ===== src/Io/IoUring/Queue.antt =====
-- `get_submission_entry` (bipolar/io/io_uring.cpp) as an operation on the queue of the entries handed out
-- to be filled.
use bipolar.Common.{
  ℕ, ◌+◌, ◌-◌, ◌^◌, ◌≤◌, ◌<◌, ◌≡◌, ◌≢◌, ◌⊎◌, inl, inr, refl, sym, ap, ◌∙◌, subst, List, [], ◌∷◌,
  ◌++◌, u32, arith, All, length, ltb, Bool-cases,
}
use bipolar.Core.Result.{ok, err}
use bipolar.Io.IoUring.{Ring, sub32, get_submission_entry}
use bipolar.Io.IoUring.Views.{view, length-view, view-append, view-All}
use bipolar.Io.IoUring.Filled.{slot, slot-lt, slots_apart}
use Prim.Native.Nat.{bit_and}
use native.Mathlib.Nat.{pow-le-pow_right}

pub pow_small : (k : ℕ) → k ≤ 31 → 2 ^ k ≤ 2 ^ 31
pow_small k le = pow-le-pow_right {n = 2} (omega arith) le

count_up :
    (t h m : ℕ)
    → t < 2 ^ 32
    → h < 2 ^ 32
    → sub32 t h < m
    → m ≤ 2 ^ 31 + 1
    → (sub32 (u32 (t + 1)) h ≡ sub32 t h + 1) × (u32 (h + sub32 t h) ≡ t)
count_up t h m lt lt' room le = (omega arith, omega arith)

module _ {Cqe : Type 0} where
  -- The ring has 2^k entries, the positions are 32-bit numbers, and no more entries are handed out than
  -- there are.
  pub record IsSound (k : ℕ) (r : Ring Cqe) : Type 0 where
    pub small : k ≤ 31
    pub entries : r.sq.kring_entries ≡ 2 ^ k
    pub mask : r.sq.kring_mask ≡ 2 ^ k - 1
    pub head : r.sq.sqe_head < 2 ^ 32
    pub tail : r.sq.sqe_tail < 2 ^ 32
    pub khead : r.sq.khead < 2 ^ 32
    pub ktail : r.sq.ktail < 2 ^ 32
    pub within : sub32 r.sq.sqe_tail r.sq.sqe_head ≤ 2 ^ k

  -- The entries handed out and not yet submitted.
  abbrev pub queued : Ring Cqe → List ℕ
  queued r =
      view (sub32 r.sq.sqe_tail r.sq.sqe_head) r.sq.sqe_head (λ p. bit_and p (r.sq.kring_mask))

  -- The entries submitted and not yet taken by the kernel.
  abbrev pub published : Ring Cqe → List ℕ
  published r =
      view (sub32 r.sq.ktail r.sq.khead) r.sq.khead (λ p. r.sq.array (bit_and p (r.sq.kring_mask)))

  -- In a sound ring with a vacant entry, `get_submission_entry` hands out an entry of the ring that is
  -- not handed out already, and appends it to those that are. With no vacant entry it returns an
  -- error and changes nothing.
  pub get_submission_entry_lem :
      (k : ℕ) (r : Ring Cqe)
      → IsSound k r
      → ((length (queued r) < 2 ^ k)
          × ((i : ℕ) × (r' : Ring Cqe) × (get_submission_entry r ≡ (ok i, r'))
              × (i < 2 ^ k)
              × All (λ j. i ≢ j) (queued r)
              × (queued r' ≡ queued r ++ i ∷ [])
              × IsSound k r'))
        ⊎ ((length (queued r) ≡ 2 ^ k) × (get_submission_entry r ≡ (err tt, r)))
  unfolding get_submission_entry
  get_submission_entry_lem k r v =
      let q = r.sq in
      let n = sub32 q.sqe_tail q.sqe_head in
      let f : ℕ → ℕ = λ p. bit_and p (q.kring_mask) in
      let le = pow_small k v.small in
      let place : (p : ℕ) → f p ≡ slot k p = λ p. ap (bit_and p) v.mask in
      let len = length-view n q.sqe_head f in
      elim (Bool-cases (ltb n (2 ^ k))) [
        | inl e ↦
            let room : n < 2 ^ k = ground arith in
            let (more, last) =
              count_up q.sqe_tail q.sqe_head (2 ^ k) v.tail v.head room (omega (arith, le)) in
            inl (
              omega (arith, len),
              (
                f q.sqe_tail,
                record r { sq = record q { sqe_tail = u32 (q.sqe_tail + 1) } },
                ground (arith, more, v.entries),
                subst (λ x. x < 2 ^ k) (sym (place q.sqe_tail)) (slot-lt k q.sqe_tail),
                view-All (λ j. f q.sqe_tail ≢ j) n q.sqe_head f v.head
                    (λ i l same.
                      slots_apart k q.sqe_head i n (omega (arith, v.small)) l (omega arith) (
                        ap (slot k) last
                        ∙ sym (place q.sqe_tail)
                        ∙ same
                        ∙ place (u32 (q.sqe_head + i)))),
                ap (λ m. view m q.sqe_head f) more
                    ∙ view-append n 1 (n + 1) q.sqe_head f v.head refl
                    ∙ ap (λ p. view n q.sqe_head f ++ f p ∷ []) last,
                record {
                  small = v.small;
                  entries = v.entries;
                  mask = v.mask;
                  head = v.head;
                  tail = omega arith;
                  khead = v.khead;
                  ktail = v.ktail;
                  within = omega (arith, more);
                },
              ),
            )
        | inr e ↦
            let e' : n ≡ 2 ^ k = ground (arith, v.within) in
            let full : sub32 (u32 (q.sqe_tail + 1)) q.sqe_head ≡ n + 1 =
              (count_up q.sqe_tail q.sqe_head (2 ^ k + 1) v.tail v.head (omega arith)
                (omega arith)).0 in
            inr (omega (arith, len, v.within, e'), ground (arith, full, v.entries))
      ]
