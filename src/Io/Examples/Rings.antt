-- ===== src/Io/Examples/Rings.antt =====
-- The construction of a ring of eight entries, whose last mapping fails.
use bipolar.Common.{ℕ, ◌≡◌, refl, [], ◌∷◌}
use bipolar.Io.IoUring.Setup.{
  Params, Region, off_sq_ring, off_cq_ring, off_sqes, Attempt, gives, fails, Calls, descriptor,
  construct,
}
use bipolar.Io.IoUring.Setup.Mappings.{IsShared, Leaves, construct-Leaves}

abbrev params : Params
params = record {
  sq_entries = 8;
  cq_entries = 16;
  flags = 0;
  sq_off = record {
    head = 0;
    tail = 64;
    ring_mask = 256;
    ring_entries = 264;
    flags = 276;
    dropped = 272;
    array = 576;
  };
  cq_off = record {
    head = 128;
    tail = 192;
    ring_mask = 260;
    ring_entries = 268;
    overflow = 284;
    cqes = 320;
  };
}

-- `ENOMEM` is 12.
abbrev mapped : Region → Attempt ℕ
mapped off_sq_ring = gives 4096
mapped off_sqes = gives 8192
mapped off_cq_ring = fails 12

abbrev calls : Calls
calls = record {
  sqe_size = 64;
  cqe_size = 16;
  io_uring_setup = λ entries p. gives (3, params);
  mmap = λ size fd region. mapped region;
  load = λ address. 8;
}

calls-IsShared : IsShared calls
calls-IsShared entries p p' fd ptr e e' = cc

construct-Leaves_example :
    Leaves calls
      (descriptor 2 ∷ [])
      (gives (3, params))
      (construct calls 8 params (descriptor 2 ∷ []))
construct-Leaves_example = construct-Leaves calls 8 params (descriptor 2 ∷ []) calls-IsShared

-- The descriptor 3 stays open.
left_open :
    construct calls 8 params (descriptor 2 ∷ []) ≡ (fails 12, descriptor 3 ∷ descriptor 2 ∷ [])
unfolding construct
left_open = refl
