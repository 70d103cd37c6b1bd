-- ===== src/Io/Examples.antt =====
-- The theorems about bipolar/io at concrete inputs: rings of four entries, whose positions wrap.
mod Rings
use bipolar.Common.{
  ℕ, ◌+◌, ◌^◌, ◌<◌, ◌≡◌, ◌≢◌, ◌⊎◌, refl, [], ◌∷◌, ◌++◌, u32, arith, All, length, true, false, none,
  some,
}
use bipolar.Core.Result.{Result, ok, err}
use bipolar.Io.IoUring.{Ring, Kernel, get_submission_entry, submit, get_completion_entry}
use bipolar.Io.IoUring.Queue.{IsSound, queued, published, get_submission_entry_lem}
use bipolar.Io.IoUring.Submission.{IsContract, Told, submit_lem}
use bipolar.Io.IoUring.Completion.{IsFirst, Awaited, completions, get_completion_entry_returns}

-- One entry is handed out, one is with the kernel, and two completions are posted.
abbrev ring : Ring ℕ
ring = record {
  flags = 0;
  sq = record {
    khead = 4294967294;
    ktail = 4294967295;
    kring_mask = 3;
    kring_entries = 4;
    kflags = 0;
    array = λ i. i;
    sqe_head = 4294967295;
    sqe_tail = 0;
  };
  cq = record { khead = 4294967295; ktail = 1; kring_mask = 7; cqes = λ i. i + 100 };
}

-- The same, without a completion.
abbrev ring_idle : Ring ℕ
ring_idle = let q = ring.cq in record ring { cq = record q { khead = 1 } }

-- Each call posts one completion.
abbrev posting : Kernel ℕ
posting = record {
  setup_sqpoll = 2;
  sq_need_wakeup = 1;
  enter_sq_wakeup = 2;
  enter_getevents = 1;
  eagain = 11;
  enter =
      λ n w f r. (none, (let q = r.cq in record r { cq = record q { ktail = u32 (q.khead + 1) } }));
}

posting-IsContract : IsContract posting
posting-IsContract = record {
  own_head = λ n w f r. refl;
  own_tail = λ n w f r. refl;
  user_head = λ n w f r. refl;
  kernel_tail = λ n w f r. omega arith;
  delivers = λ n w f r flag pos e. omega arith;
}

ring-IsSound : IsSound 2 ring
ring-IsSound = record {
  small = omega arith;
  entries = refl;
  mask = refl;
  head = omega arith;
  tail = omega arith;
  khead = omega arith;
  ktail = omega arith;
  within = omega arith;
}

get_submission_entry_lem_example :
    ((length (queued ring) < 2 ^ 2)
      × ((i : ℕ) × (r' : Ring ℕ) × (get_submission_entry ring ≡ (ok i, r'))
          × (i < 2 ^ 2)
          × All (λ j. i ≢ j) (queued ring)
          × (queued r' ≡ queued ring ++ i ∷ [])
          × IsSound 2 r'))
    ⊎ ((length (queued ring) ≡ 2 ^ 2) × (get_submission_entry ring ≡ (err tt, ring)))
get_submission_entry_lem_example = get_submission_entry_lem 2 ring ring-IsSound

submit_lem_example :
    ((queued ring ≡ []) × (submit posting 1 ring ≡ (ok 0, ring)))
    ⊎ ((r' : Ring ℕ) × (published r' ≡ published ring ++ queued ring)
        × (queued r' ≡ [])
        × Told posting (length (queued ring)) 1 r' (submit posting 1 ring))
submit_lem_example = submit_lem posting 2 1 ring ring-IsSound (omega arith)

get_completion_entry_returns_example :
    (x : Result ℕ ℕ) × (r' : Ring ℕ) × (get_completion_entry posting 2 true ring_idle
      ≡ some (x, r'))
    × (((i : ℕ) × (x ≡ ok i) × IsFirst i r' × Awaited posting true ring_idle r')
        ⊎ ((e : ℕ) × (true ≡ true)
            × (x ≡ err e)
            × (posting.enter 0 1 posting.enter_getevents ring_idle ≡ (some e, r')))
        ⊎ ((true ≡ false)
            × (x ≡ err posting.eagain)
            × (completions ring_idle ≡ [])
            × (r' ≡ ring_idle)))
get_completion_entry_returns_example =
    get_completion_entry_returns posting 0 true ring_idle
      (record { khead = omega arith; ktail = omega arith }) posting-IsContract
