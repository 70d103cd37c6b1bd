-- ===== src/Io/IoUring/Submission.antt =====
-- `submit` (bipolar/io/io_uring.cpp) as an operation on two queues: the entries handed out to be filled,
-- and those that the kernel may take.
use bipolar.Common.{
  ℕ, ◌+◌, ◌^◌, ◌≤◌, ◌<◌, ◌-◌, ◌≡◌, ◌≢◌, ◌⊎◌, inl, inr, refl, sym, ap, ◌∙◌, subst, [], ◌++◌, arith,
  length, true, false, ◌==◌, ltb, if◌then◌else◌, Option, none, some, Bool-cases,
}
use bipolar.Core.Result.{Result, ok, err}
use bipolar.Io.IoUring.{
  Ring, Kernel, sub32, Filling, fill, filled, advance, publish, submit, needs_enter, must_enter,
  enter_flags, entered, handed,
}
use bipolar.Io.IoUring.Views.{view, length-view}
use bipolar.Io.IoUring.Filled.{fill-positions, filled_view}
use Prim.Native.Nat.{bit_and, bit_or}
use bipolar.Io.IoUring.Queue.{pow_small, IsSound, queued, published}

-- The smaller of two numbers.
least : (n wait : ℕ) → (if ltb n wait then n else wait) ≡ n - (n - wait)
least n wait = ground arith

no_wait : (n wait : ℕ) → wait ≡ 0 → (if ltb n wait then n else wait) ≡ 0
no_wait n wait z = ground arith

is_zero : (n : ℕ) → n ≡ 0 → (n == 0) ≡ true
is_zero n z = ground arith

nonzero : (n : ℕ) → n ≢ 0 → (n == 0) ≡ false
nonzero n h = ground arith

not_nonzero : (n : ℕ) → ¬ (n ≢ 0) → (n == 0) ≡ true
not_nonzero n h = elim (Bool-cases (n == 0)) [
  | inl e ↦ e
  | inr e ↦ absurd (h (λ z. absurd (ground arith)))
]

module _ {Cqe : Type 0} where
  filled-sqe_head : (k : ℕ) (r : Ring Cqe) → IsSound k r → (filled r).sqe_head ≡ r.sq.sqe_tail
  unfolding filled
  filled-sqe_head k r v =
      let q = r.sq in
      let n = sub32 q.sqe_tail q.sqe_head in
      let f : Filling = record {
        ktail = q.ktail;
        sqe_head = q.sqe_head;
        submitted = 0;
        array = q.array;
      } in
      let (tail, head, count) = fill-positions q.kring_mask n f v.ktail v.head (omega arith) in
      omega (arith, v.head, v.tail, head)

  publish-published :
      (k : ℕ) (r : Ring Cqe)
      → IsSound k r
      → length (published r) + length (queued r) ≤ 2 ^ k
      → (published (publish (filled r) r) ≡ published r ++ queued r)
        × (queued (publish (filled r) r) ≡ [])
        × ((filled r).submitted ≡ length (queued r))
        × ((filled r).sqe_head ≡ r.sq.sqe_tail)
  unfolding filled publish advance
  publish-published k r v room =
      let q = r.sq in
      let c = sub32 q.ktail q.khead in
      let n = sub32 q.sqe_tail q.sqe_head in
      let f : Filling = record {
        ktail = q.ktail;
        sqe_head = q.sqe_head;
        submitted = 0;
        array = q.array;
      } in
      let f' = fill q.kring_mask n f in
      let le = pow_small k v.small in
      let old = length-view c q.khead (λ p. q.array (bit_and p (q.kring_mask))) in
      let new = length-view n q.sqe_head (λ p. bit_and p (q.kring_mask)) in
      let (tail, head, count) = fill-positions q.kring_mask n f v.ktail v.head (omega arith) in
      let fits : c + n ≤ 2 ^ k = omega (arith, old, new, room) in
      let more : sub32 f'.ktail q.khead ≡ c + n = omega (arith, v.khead, v.ktail, tail) in
      let through : f'.sqe_head ≡ q.sqe_tail = omega (arith, v.head, v.tail, head) in
      let none_left : sub32 q.sqe_tail f'.sqe_head ≡ 0 = omega (arith, v.tail, through) in
      (
        ap (λ x. view x q.khead (λ p. f'.array (bit_and p (q.kring_mask)))) more
            ∙ subst
                (λ m.
                  view (c + n) q.khead (λ p. (fill m n f).array (bit_and p m))
                  ≡ view c q.khead (λ p. q.array (bit_and p m))
                    ++ view n q.sqe_head (λ p. bit_and p m))
                (sym v.mask)
                (filled_view k c n q.khead f v.small fits v.khead
                  (omega (arith, v.khead, v.ktail))),
        ap (λ x. view x f'.sqe_head (λ p. bit_and p (q.kring_mask))) none_left,
        omega (arith, new, count),
        through,
      )

  -- What the code relies on of `io_uring_enter`: it does not write the members of the class that are
  -- not in the shared memory, nor the head of the completion ring, which the user controls; the tail
  -- is a 32-bit number; and a call with `IORING_ENTER_GETEVENTS` that waits for a completion and succeeds
  -- leaves one.
  pub record IsContract (kernel : Kernel Cqe) : Type 0 where
    pub own_head : (n w f : ℕ) (r : Ring Cqe) → (kernel.enter n w f r).1.sq.sqe_head ≡ r.sq.sqe_head
    pub own_tail : (n w f : ℕ) (r : Ring Cqe) → (kernel.enter n w f r).1.sq.sqe_tail ≡ r.sq.sqe_tail
    pub user_head : (n w f : ℕ) (r : Ring Cqe) → (kernel.enter n w f r).1.cq.khead ≡ r.cq.khead
    pub kernel_tail : (n w f : ℕ) (r : Ring Cqe) → (kernel.enter n w f r).1.cq.ktail < 2 ^ 32
    pub delivers :
        (n w f : ℕ) (r : Ring Cqe)
        → f ≡ kernel.enter_getevents
        → 0 < w
        → (kernel.enter n w f r).0 ≡ none
        → (kernel.enter n w f r).1.cq.ktail ≢ (kernel.enter n w f r).1.cq.khead

  module _ (kernel : Kernel Cqe) where
    -- What `submit` returns of a call that was told n entries: the `errno`, or else n.
    abbrev pub Returns : ℕ → Option ℕ × Ring Cqe → Result ℕ ℕ × Ring Cqe → Type 0
    Returns n (none, r) out = out ≡ (ok n, r)
    Returns n (some errno, r) out = out ≡ (err errno, r)

    abbrev pub PollsSq : Ring Cqe → Type 0
    PollsSq r = bit_and r.flags kernel.setup_sqpoll ≢ 0

    abbrev pub NeedsWakeup : Ring Cqe → Type 0
    NeedsWakeup r = bit_and (r.sq.kflags) kernel.sq_need_wakeup ≢ 0

    -- The system call for n entries. With completions to wait for it always happens, for the smaller of
    -- the two numbers and with the flag for them. Else it happens unless a kernel thread polls the
    -- ring, and also then, with the flag for it, if that thread needs to be woken.
    abbrev pub Told : ℕ → ℕ → Ring Cqe → Result ℕ ℕ × Ring Cqe → Type 0
    Told n wait r out =
        (0 < wait
          → Returns n (kernel.enter n (n - (n - wait)) (bit_or 0 kernel.enter_getevents) r) out)
        × (wait ≡ 0 → ¬ PollsSq r → Returns n (kernel.enter n 0 0 r) out)
        × (wait ≡ 0
            → PollsSq r
            → NeedsWakeup r
            → Returns n (kernel.enter n 0 (bit_or 0 kernel.enter_sq_wakeup) r) out)
        × (wait ≡ 0 → PollsSq r → ¬ NeedsWakeup r → out ≡ (ok n, r))

    entered-Returns : (n : ℕ) (x : Option ℕ × Ring Cqe) → Returns n x (entered kernel n x)
    unfolding entered
    entered-Returns n (none, r) = refl
    entered-Returns n (some e, r) = refl

    handed-Told : (n wait : ℕ) (r : Ring Cqe) → Told n wait r (handed kernel n wait r)
    unfolding must_enter needs_enter enter_flags
    handed-Told n wait r =
        let sq = bit_and r.flags kernel.setup_sqpoll in
        let wake = bit_and (r.sq.kflags) kernel.sq_need_wakeup in
        (
          λ p.
              let e : (wait == 0) ≡ false = ground arith in
              rw (e, least n wait) (entered-Returns n _),
          λ z polls.
              rw (is_zero wait z, not_nonzero sq polls, no_wait n wait z) (entered-Returns n _),
          λ z polls asleep.
              rw (is_zero wait z, nonzero sq polls, nonzero wake asleep, no_wait n wait z)
                (entered-Returns n _),
          λ z polls awake. rw (is_zero wait z, nonzero sq polls, not_nonzero wake awake) refl,
        )

    -- What `submit` does in a sound ring. If no entry is handed out it returns 0 and changes nothing.
    -- Otherwise, if there are places for them in the ring, it hands all the entries over to the kernel,
    -- in their order and behind those that are there. Then, with completions to wait for, it makes the
    -- system call for their number and at most so many completions, with the flag to wait; without, it
    -- makes the call unless a kernel thread polls the ring and is awake, with the flag to wake it if
    -- there is one. It returns the error of the call, and else the number of the entries.
    pub submit_lem :
        (k wait : ℕ) (r : Ring Cqe)
        → IsSound k r
        → length (published r) + length (queued r) ≤ 2 ^ k
        → ((queued r ≡ []) × (submit kernel wait r ≡ (ok 0, r)))
          ⊎ ((r' : Ring Cqe) × (published r' ≡ published r ++ queued r)
              × (queued r' ≡ [])
              × Told (length (queued r)) wait r' (submit kernel wait r))
    unfolding submit
    submit_lem k wait r v room =
        let q = r.sq in
        let n = sub32 q.sqe_tail q.sqe_head in
        let f = filled r in
        let (all, empty, count, through) = publish-published k r v room in
        let len = length-view n q.sqe_head (λ p. bit_and p (q.kring_mask)) in
        elim (Bool-cases (q.sqe_head == q.sqe_tail)) [
          | inl e ↦
              let none_queued : n ≡ 0 = ground (arith, v.tail, v.head) in
              inl
                (ap (λ x. view x q.sqe_head (λ p. bit_and p (q.kring_mask))) none_queued, rw e refl)
          | inr e ↦
              let some_queued : 0 < n = ground (arith, v.tail, v.head) in
              let some_submitted : (f.submitted == 0) ≡ false = ground (arith, count, len) in
              inr (
                publish f r,
                all,
                empty,
                subst (λ n. Told n wait (publish f r) (submit kernel wait r)) count
                    (rw (e, some_submitted) (handed-Told f.submitted wait (publish f r))),
              )
        ]

    entered_ring : (n : ℕ) (x : Option ℕ × Ring Cqe) → (entered kernel n x).1 ≡ x.1
    unfolding entered
    entered_ring n (none, r) = refl
    entered_ring n (some e, r) = refl

    handed_positions :
        (n wait : ℕ) (r : Ring Cqe)
        → IsContract kernel
        → r.sq.sqe_head ≡ r.sq.sqe_tail
        → (handed kernel n wait r).1.sq.sqe_head ≡ (handed kernel n wait r).1.sq.sqe_tail
    handed_positions n wait r c same =
        let w = if ltb n wait then n else wait in
        let flags = enter_flags kernel wait (must_enter kernel wait r).1 in
        let after = kernel.enter n w flags r in
        elim (Bool-cases (must_enter kernel wait r).0) [
          | inl e ↦
              rw (e, entered_ring n after)
                (c.own_head n w flags r ∙ same ∙ sym (c.own_tail n w flags r))
          | inr e ↦ rw e same
        ]

    submit-positions :
        (k wait : ℕ) (r : Ring Cqe)
        → IsSound k r
        → IsContract kernel
        → (submit kernel wait r).1.sq.sqe_head ≡ (submit kernel wait r).1.sq.sqe_tail
    unfolding submit filled publish advance
    submit-positions k wait r v c =
        let q = r.sq in
        let f = filled r in
        let through : f.sqe_head ≡ q.sqe_tail = filled-sqe_head k r v in
        elim (Bool-cases (q.sqe_head == q.sqe_tail)) [
          | inl e ↦ rw e (ground arith)
          | inr e ↦ elim (Bool-cases (f.submitted == 0)) [
            | inl z ↦ rw (e, z) through
            | inr z ↦ rw (e, z) (handed_positions f.submitted wait (publish f r) c through)
          ]
        ]

    submit_idle :
        (wait : ℕ) (r : Ring Cqe) → r.sq.sqe_head ≡ r.sq.sqe_tail → submit kernel wait r ≡ (ok 0, r)
    unfolding submit
    submit_idle wait r e =
        let same : (r.sq.sqe_head == r.sq.sqe_tail) ≡ true = ground arith in rw same refl

    -- Whatever `submit` returned, also an error, the entries count as submitted: another call returns 0
    -- without a system call.
    pub submit_again :
        (k wait wait' : ℕ) (r : Ring Cqe)
        → IsSound k r
        → IsContract kernel
        → submit kernel wait' (submit kernel wait r).1 ≡ (ok 0, (submit kernel wait r).1)
    submit_again k wait wait' r v c =
        submit_idle wait' (submit kernel wait r).1 (submit-positions k wait r v c)
