-- ===== src/Io/IoUring/Completion.antt =====
-- The completion ring of bipolar/io/io_uring.cpp as a queue: `get_completion_entry` reads its first entry,
-- `seen` drops entries from its front.
use bipolar.Common.{
  ℕ, zero, suc, ◌+◌, ◌-◌, ◌^◌, ◌≤◌, ◌<◌, ◌≡◌, ◌≢◌, ◌⊎◌, inl, inr, refl, sym, ap, ◌∙◌, subst, List,
  [], ◌∷◌, u32, arith, length, drop, Bool, true, false, ◌==◌, Option, none, some, Bool-cases,
}
use bipolar.Core.Result.{Result, ok, err}
use bipolar.Io.IoUring.{
  Ring, Kernel, sub32, returns, completion_waited, completion_round, after_round,
  get_completion_entry, seen,
}
use bipolar.Io.IoUring.Views.{view, length-view, at_start, further, below}
use bipolar.Io.IoUring.Submission.{IsContract}
use Prim.Native.Nat.{bit_and}

drop-view {ℓ} :
    {A : Type ℓ} (n c p : ℕ) (f : ℕ → A)
    → p < 2 ^ 32
    → n ≤ c
    → drop n (view c p f) ≡ view (c - n) (u32 (p + n)) f
drop-view zero c p f lt le =
    let all : c ≡ c - 0 = omega arith in
    ap (λ m. view m p f) all ∙ ap (λ q. view (c - 0) q f) (sym (at_start p lt))
drop-view (suc n) zero p f lt le = absurd (omega arith)
drop-view (suc n) (suc c) p f lt le =
    let rest : c - n ≡ suc c - suc n = omega arith in
    drop-view n c (u32 (p + 1)) f (below (p + 1)) (omega arith)
    ∙ ap (λ q. view (c - n) q f) (further p n)
    ∙ ap (λ m. view m (u32 (p + suc n)) f) rest

module _ {Cqe : Type 0} where
  -- The completions that the kernel has posted and that have not been seen.
  abbrev pub completions : Ring Cqe → List Cqe
  completions r =
      view (sub32 r.cq.ktail r.cq.khead) r.cq.khead (λ p. r.cq.cqes (bit_and p (r.cq.kring_mask)))

  -- The positions are 32-bit numbers.
  pub record IsBounded (r : Ring Cqe) : Type 0 where
    pub khead : r.cq.khead < 2 ^ 32
    pub ktail : r.cq.ktail < 2 ^ 32

  -- `seen n` drops the first n completions, if there are so many, also where the positions wrap.
  pub seen-completions :
      (n : ℕ) (r : Ring Cqe)
      → IsBounded r
      → n ≤ length (completions r)
      → completions (seen n r) ≡ drop n (completions r)
  unfolding seen
  seen-completions n r v le =
      let q = r.cq in
      let c = sub32 q.ktail q.khead in
      let f : ℕ → Cqe = λ p. q.cqes (bit_and p (q.kring_mask)) in
      let len = length-view c q.khead f in
      let fits : n ≤ c = omega (arith, len, le) in
      let less : sub32 q.ktail (u32 (q.khead + n)) ≡ c - n =
        omega (arith, v.khead, v.ktail, fits) in
      ap (λ m. view m (u32 (q.khead + n)) f) less ∙ sym (drop-view n c q.khead f v.khead fits)

  -- The entry that the index names is the first completion.
  abbrev pub IsFirst : ℕ → Ring Cqe → Type 0
  IsFirst i r = (cs : List Cqe) × (completions r ≡ r.cq.cqes i ∷ cs)

  front-IsFirst :
      (r : Ring Cqe)
      → IsBounded r
      → r.cq.ktail ≢ r.cq.khead
      → IsFirst (bit_and r.cq.khead (r.cq.kring_mask)) r
  front-IsFirst r v apart =
      let q = r.cq in
      let c = sub32 q.ktail q.khead in
      let f : ℕ → Cqe = λ p. q.cqes (bit_and p (q.kring_mask)) in
      let more : c ≡ suc (c - 1) = omega (arith, v.khead, v.ktail, apart) in
      (view (c - 1) (u32 (q.khead + 1)) f, ap (λ m. view m q.khead f) more)

  some_posted : (r : Ring Cqe) → IsBounded r → r.cq.ktail ≢ r.cq.khead → completions r ≢ []
  some_posted r v apart e = let (cs, first) = front-IsFirst r v apart in absurd (cc (e, first))

  module _ (kernel : Kernel Cqe) where
    peek_ready :
        (fuel : ℕ) (wait : Bool) (r : Ring Cqe)
        → r.cq.ktail ≢ r.cq.khead
        → get_completion_entry kernel (suc fuel) wait r
          ≡ some (ok (bit_and r.cq.khead (r.cq.kring_mask)), r)
    unfolding get_completion_entry completion_round
    peek_ready fuel wait r apart =
        let i = bit_and r.cq.khead (r.cq.kring_mask) in
        let round : completion_round kernel wait r ≡ returns (ok i) r = ground arith in
        ap (after_round kernel (get_completion_entry kernel fuel wait)) round

    waiting_round :
        (r : Ring Cqe)
        → r.cq.ktail ≡ r.cq.khead
        → completion_round kernel true r
          ≡ completion_waited kernel (kernel.enter 0 1 kernel.enter_getevents r)
    unfolding completion_round
    waiting_round r e = let same : (r.cq.ktail == r.cq.khead) ≡ true = ground arith in rw same refl

    idle_round :
        (r : Ring Cqe)
        → r.cq.ktail ≡ r.cq.khead
        → completion_round kernel false r ≡ returns (err kernel.eagain) r
    unfolding completion_round
    idle_round r e = let same : (r.cq.ktail == r.cq.khead) ≡ true = ground arith in rw same refl

    nothing_posted : (r : Ring Cqe) → r.cq.ktail ≡ r.cq.khead → completions r ≡ []
    nothing_posted r e =
        let q = r.cq in
        let zero_posted : sub32 q.ktail q.khead ≡ 0 = omega (arith, e) in
        ap (λ m. view m q.khead (λ p. q.cqes (bit_and p (q.kring_mask)))) zero_posted

    -- The rings that the completion is read from: the given ones, or, if these have no completion and it
    -- waits, those that one system call leaves.
    abbrev pub Awaited : Bool → Ring Cqe → Ring Cqe → Type 0
    Awaited wait r r' =
        ((r' ≡ r) × (completions r ≢ []))
        ⊎ ((wait ≡ true)
            × (completions r ≡ [])
            × (kernel.enter 0 1 kernel.enter_getevents r ≡ (none, r')))

    -- A wait with an empty ring.
    waited :
        (fuel : ℕ) (r : Ring Cqe)
        → IsBounded r
        → IsContract kernel
        → r.cq.ktail ≡ r.cq.khead
        → (y : Option ℕ × Ring Cqe) → kernel.enter 0 1 kernel.enter_getevents r ≡ y
        → (x : Result ℕ ℕ) × (r' : Ring Cqe) × (get_completion_entry kernel (suc (suc fuel)) true r
            ≡ some (x, r'))
          × (((i : ℕ) × (x ≡ ok i) × IsFirst i r' × Awaited true r r')
              ⊎ ((e : ℕ) × (x ≡ err e) × (y ≡ (some e, r'))))
    unfolding get_completion_entry
    waited fuel r v c same (some e, r') called = (
      err e,
      r',
      ap (after_round kernel (get_completion_entry kernel (suc fuel) true))
          (waiting_round r same ∙ ap (completion_waited kernel) called),
      inr (e, refl, refl),
    )
    waited fuel r v c same (none, r') called =
        let g = kernel.enter_getevents in
        let apart : r'.cq.ktail ≢ r'.cq.khead =
          subst (λ (y : Option ℕ × Ring Cqe). y.1.cq.ktail ≢ y.1.cq.khead) called
            (c.delivers 0 1 g r refl (omega arith)
              (ap (λ (y : Option ℕ × Ring Cqe). y.0) called)) in
        let bound : IsBounded r' = record {
          khead =
              subst (λ h. h < 2 ^ 32)
                (sym (c.user_head 0 1 g r) ∙ ap (λ (y : Option ℕ × Ring Cqe). y.1.cq.khead) called)
                v.khead;
          ktail =
              subst (λ (y : Option ℕ × Ring Cqe). y.1.cq.ktail < 2 ^ 32) called
                (c.kernel_tail 0 1 g r);
        } in
        (
          _,
          r',
          ap (after_round kernel (get_completion_entry kernel (suc fuel) true))
                (waiting_round r same ∙ ap (completion_waited kernel) called)
              ∙ peek_ready fuel true r' apart,
          inl (_, refl, front-IsFirst r' bound apart, inr (refl, nothing_posted r same, called)),
        )

    -- With the kernel's contract, and fuel for two rounds or more, `get_completion_entry` returns. It
    -- returns the first completion of the given rings, which are not changed; or, if they have none and
    -- it waits, the first completion of the rings that the system call leaves; or, if it waits and the system call fails, its error; or, if it
    -- does not wait and there is none, `EAGAIN`, and then nothing has changed.
    pub get_completion_entry_returns :
        (fuel : ℕ) (wait : Bool) (r : Ring Cqe)
        → IsBounded r
        → IsContract kernel
        → (x : Result ℕ ℕ) × (r' : Ring Cqe) × (get_completion_entry kernel (suc (suc fuel)) wait r
            ≡ some (x, r'))
          × (((i : ℕ) × (x ≡ ok i) × IsFirst i r' × Awaited wait r r')
              ⊎ ((e : ℕ) × (wait ≡ true)
                  × (x ≡ err e)
                  × (kernel.enter 0 1 kernel.enter_getevents r ≡ (some e, r')))
              ⊎ ((wait ≡ false) × (x ≡ err kernel.eagain) × (completions r ≡ []) × (r' ≡ r)))
    unfolding get_completion_entry
    get_completion_entry_returns fuel wait r v c = elim (Bool-cases (r.cq.ktail == r.cq.khead)) [
      | inr e ↦
          let apart : r.cq.ktail ≢ r.cq.khead = ground arith in
          (
            _,
            r,
            peek_ready (suc fuel) wait r apart,
            inl (_, refl, front-IsFirst r v apart, inl (refl, some_posted r v apart)),
          )
      | inl e ↦
          let same : r.cq.ktail ≡ r.cq.khead = ground arith in
          elim (Bool-cases wait) [
            | inr off ↦ (
              err kernel.eagain,
              r,
              ap (λ b. get_completion_entry kernel (suc (suc fuel)) b r) off
                  ∙ ap (after_round kernel (get_completion_entry kernel (suc fuel) false))
                      (idle_round r same),
              inr (inr (off, refl, nothing_posted r same, refl)),
            )
            | inl on ↦
                let (x, r', gives, out) =
                  waited fuel r v c same (kernel.enter 0 1 kernel.enter_getevents r) refl in
                (
                  x,
                  r',
                  ap (λ b. get_completion_entry kernel (suc (suc fuel)) b r) on ∙ gives,
                  elim out [
                    | inl (i, is_ok, first, awaited) ↦
                        inl (i, is_ok, first, subst (λ w. Awaited w r r') (sym on) awaited)
                    | inr (e', is_err, called) ↦ inr (inl (e', on, is_err, called))
                  ],
                )
          ]
    ]
