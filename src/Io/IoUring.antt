-- ===== src/Io/IoUring.antt =====
-- bipolar/io/io_uring.hpp and io_uring.cpp: the submission and the completion ring, with their 32-bit
-- positions. A reference to an entry of a ring is its index. `errno` is part of what a system call
-- returns.
pub mod Setup
pub mod Sqe
pub mod Prepared
pub mod Views
pub mod Filled
pub mod Queue
pub mod Submission
pub mod Completion
use bipolar.Common.{
  ℕ, zero, suc, ◌+◌, ◌-◌, ◌^◌, Bool, true, false, not, ◌==◌, ltb, if◌then◌else◌, Option, none, some,
  put, u32,
}
use bipolar.Core.Result.{Result, ok, err}
use Prim.Native.Nat.{bit_and, bit_or}

-- `a - b` on `std::uint32_t`.
abbrev pub sub32 : ℕ → ℕ → ℕ
sub32 a b = u32 (a + 2 ^ 32 - b)

-- The members of `IOUringSQ` that are read or written after the construction; `array` is a function of
-- the index.
pub record Sq : Type 0 where
  pub khead : ℕ
  pub ktail : ℕ
  pub kring_mask : ℕ
  pub kring_entries : ℕ
  pub kflags : ℕ
  pub array : ℕ → ℕ
  pub sqe_head : ℕ
  pub sqe_tail : ℕ

-- Those of `IOUringCQ`; `Cqe` is the kernel's entry.
pub record Cq (Cqe : Type 0) : Type 0 where
  pub khead : ℕ
  pub ktail : ℕ
  pub kring_mask : ℕ
  pub cqes : ℕ → Cqe

pub record Ring (Cqe : Type 0) : Type 0 where
  pub flags : ℕ
  pub sq : Sq
  pub cq : Cq Cqe

-- What the kernel's header and the kernel give: the flags and `EAGAIN`, and
-- `io_uring_enter(fd, to_submit, min_complete, flags)`, which returns the `errno` if it fails, and the
-- rings as it leaves them.
pub record Kernel (Cqe : Type 0) : Type 0 where
  pub setup_sqpoll : ℕ
  pub sq_need_wakeup : ℕ
  pub enter_sq_wakeup : ℕ
  pub enter_getevents : ℕ
  pub eagain : ℕ
  pub enter : ℕ → ℕ → ℕ → Ring Cqe → Option ℕ × Ring Cqe

-- The loop of `submit`, with the positions and the count that it advances.
pub record Filling : Type 0 where
  pub ktail : ℕ
  pub sqe_head : ℕ
  pub submitted : ℕ
  pub array : ℕ → ℕ

abbrev pub fill_one : ℕ → Filling → Filling
fill_one mask f = record {
  ktail = u32 (f.ktail + 1);
  sqe_head = u32 (f.sqe_head + 1);
  submitted = u32 (f.submitted + 1);
  array = put f.array (bit_and f.ktail mask) (bit_and f.sqe_head mask);
}

unfoldable pub fill : ℕ → ℕ → Filling → Filling
fill mask zero f = f
fill mask (suc to_submit) f = fill mask to_submit (fill_one mask f)

-- What a round of the loop of `get_completion_entry` gives: its result, or the rings for the next one.
pub data Round (Cqe : Type 0) : Type 0 where
  returns : Result ℕ ℕ → Ring Cqe → Round Cqe
  again : Ring Cqe → Round Cqe

module _ {Cqe : Type 0} where
  unfoldable pub get_submission_entry : Ring Cqe → Result ℕ (Unit {0}) × Ring Cqe
  get_submission_entry r =
      let q = r.sq in
      let next = u32 (q.sqe_tail + 1) in
      if ltb q.kring_entries (sub32 next q.sqe_head)
      then (err tt, r)
      else (ok (bit_and q.sqe_tail q.kring_mask), record r { sq = record q { sqe_tail = next } })

  unfoldable pub filled : Ring Cqe → Filling
  unfolding fill
  filled r =
      let q = r.sq in
      fill q.kring_mask (sub32 q.sqe_tail q.sqe_head)
        (record { ktail = q.ktail; sqe_head = q.sqe_head; submitted = 0; array = q.array })

  -- The rings after the loop, and after the store of the tail.
  unfoldable pub advance : Filling → Ring Cqe → Ring Cqe
  advance f r =
      let q = r.sq in record r { sq = record q { array = f.array; sqe_head = f.sqe_head } }

  unfoldable pub publish : Filling → Ring Cqe → Ring Cqe
  unfolding advance
  publish f r =
      let r' = advance f r in let q = r'.sq in record r' { sq = record q { ktail = f.ktail } }

  module _ (kernel : Kernel Cqe) where
    -- The test, and `flags` as it leaves them.
    unfoldable pub needs_enter : ℕ → Ring Cqe → Bool × ℕ
    needs_enter flags r =
        if bit_and r.flags kernel.setup_sqpoll == 0
        then (true, flags)
        else if not (bit_and (r.sq.kflags) kernel.sq_need_wakeup == 0)
        then (true, bit_or flags kernel.enter_sq_wakeup)
        else (false, flags)

    -- `||` does not ask for the second test if there is something to wait for.
    unfoldable pub must_enter : ℕ → Ring Cqe → Bool × ℕ
    unfolding needs_enter
    must_enter wait r = if wait == 0 then needs_enter 0 r else (true, 0)

    unfoldable pub enter_flags : ℕ → ℕ → ℕ
    enter_flags wait flags = if wait == 0 then flags else bit_or flags kernel.enter_getevents

    unfoldable pub entered : ℕ → Option ℕ × Ring Cqe → Result ℕ ℕ × Ring Cqe
    entered submitted (none, r) = (ok submitted, r)
    entered submitted (some errno, r) = (err errno, r)

    -- The end of `submit`, when entries were handed over. At most as many are submitted as the ring has,
    -- so the cast to `int` keeps the number.
    abbrev pub handed : ℕ → ℕ → Ring Cqe → Result ℕ ℕ × Ring Cqe
    handed submitted wait r =
        let (must, flags) = must_enter wait r in
        if must
        then entered submitted (
            kernel.enter submitted (if ltb submitted wait then submitted else wait)
              (enter_flags wait flags) r)
        else (ok submitted, r)

    unfoldable pub submit : ℕ → Ring Cqe → Result ℕ ℕ × Ring Cqe
    unfolding filled advance publish
    submit wait r =
        if r.sq.sqe_head == r.sq.sqe_tail
        then (ok 0, r)
        else let f = filled r in
          if f.submitted == 0 then (ok 0, advance f r) else handed f.submitted wait (publish f r)

    abbrev pub completion_waited : Option ℕ × Ring Cqe → Round Cqe
    completion_waited (none, r) = again r
    completion_waited (some errno, r) = returns (err errno) r

    unfoldable pub completion_round : Bool → Ring Cqe → Round Cqe
    completion_round wait r =
        let q = r.cq in
        if not (q.ktail == q.khead)
        then returns (ok (bit_and q.khead q.kring_mask)) r
        else if not wait
        then returns (err kernel.eagain) r
        else completion_waited (kernel.enter 0 1 kernel.enter_getevents r)

    abbrev pub after_round :
        (Ring Cqe → Option (Result ℕ ℕ × Ring Cqe)) → Round Cqe → Option (Result ℕ ℕ × Ring Cqe)
    after_round next_round (returns x r) = some (x, r)
    after_round next_round (again r) = next_round r

    -- The loop, with fuel for its rounds.
    unfoldable pub get_completion_entry : ℕ → Bool → Ring Cqe → Option (Result ℕ ℕ × Ring Cqe)
    unfolding completion_round
    get_completion_entry zero wait r = none
    get_completion_entry (suc fuel) wait r =
        after_round (get_completion_entry fuel wait) (completion_round wait r)

    unfoldable pub peek_completion_entry : ℕ → Ring Cqe → Option (Result ℕ ℕ × Ring Cqe)
    unfolding get_completion_entry
    peek_completion_entry fuel r = get_completion_entry fuel false r

  unfoldable pub seen : ℕ → Ring Cqe → Ring Cqe
  seen n r = let q = r.cq in record r { cq = record q { khead = u32 (q.khead + n) } }
