-- ===== src/Io/IoUring/Setup.antt =====
-- bipolar/io/io_uring.cpp: the constructors and destructors of `IOUringSQ`, `IOUringCQ` and `IOUring`,
-- with the descriptor and the mappings that they acquire and release. The pointer `p` is not null, as
-- asserted.
pub mod Mappings
use bipolar.Common.{ℕ, ◌+◌, ◌*◌, ◌==◌, ◌&&◌, Bool, true, false, if◌then◌else◌, List, [], ◌∷◌}

-- What a call or a constructor does: it gives a value, or fails with an `errno`, which a constructor
-- throws as a `std::system_error`.
pub data Attempt (A : Type 0) : Type 0 where
  gives : A → Attempt A
  fails : ℕ → Attempt A

-- The members of `io_uring_params` that are read: `sq_off` and `cq_off` are offsets into the mappings.
pub record SqOffsets : Type 0 where
  pub head : ℕ
  pub tail : ℕ
  pub ring_mask : ℕ
  pub ring_entries : ℕ
  pub flags : ℕ
  pub dropped : ℕ
  pub array : ℕ

pub record CqOffsets : Type 0 where
  pub head : ℕ
  pub tail : ℕ
  pub ring_mask : ℕ
  pub ring_entries : ℕ
  pub overflow : ℕ
  pub cqes : ℕ

pub record Params : Type 0 where
  pub sq_entries : ℕ
  pub cq_entries : ℕ
  pub flags : ℕ
  pub sq_off : SqOffsets
  pub cq_off : CqOffsets

-- The three offsets that `mmap` is called with.
pub data Region : Type 0 where
  off_sq_ring off_cq_ring off_sqes : Region

-- What the calls of one construction return, with the `errno` of those that fail, and the number that
-- is read at an address; the sizes of the kernel's entries.
pub record Calls : Type 0 where
  pub sqe_size : ℕ
  pub cqe_size : ℕ
  pub io_uring_setup : (entries : ℕ) → Params → Attempt (ℕ × Params)
  pub mmap : (size fd : ℕ) → Region → Attempt ℕ
  pub load : ℕ → ℕ

-- An open descriptor, and a mapping with its address and its size.
pub data Resource : Type 0 where
  descriptor : ℕ → Resource
  mapping : ℕ → ℕ → Resource

abbrev pub same_resource : Resource → Resource → Bool
same_resource (descriptor a) (descriptor b) = a == b
same_resource (mapping a n) (mapping b m) = a == b && n == m
same_resource _ _ = false

-- What is held after the first occurrence of a resource was released.
abbrev pub released : Resource → List Resource → List Resource
released r [] = []
released r (s ∷ rest) =
    let others = released r rest in if same_resource r s then rest else s ∷ others

-- What a constructor does, and what is held after it.
abbrev pub Construction : Type 0 → Type 0
Construction A = Attempt A × List Resource

pub record SqRing : Type 0 where
  pub khead : ℕ
  pub ktail : ℕ
  pub kring_mask : ℕ
  pub kring_entries : ℕ
  pub kflags : ℕ
  pub kdropped : ℕ
  pub array : ℕ
  pub sqes : ℕ
  pub sqe_head : ℕ
  pub sqe_tail : ℕ
  pub ring_sz : ℕ
  pub ring_ptr : ℕ

pub record CqRing : Type 0 where
  pub khead : ℕ
  pub ktail : ℕ
  pub kring_mask : ℕ
  pub kring_entries : ℕ
  pub koverflow : ℕ
  pub cqes : ℕ
  pub ring_sz : ℕ
  pub ring_ptr : ℕ

pub record IoUring : Type 0 where
  pub ring_fd : ℕ
  pub flags : ℕ
  pub sq : SqRing
  pub cq : CqRing

unfoldable pub sq_ring_size : Params → ℕ
sq_ring_size p = p.sq_off.array + p.sq_entries * 4

unfoldable pub sq_pointers : Params → (ring_ptr sqes : ℕ) → SqRing
unfolding sq_ring_size
sq_pointers p ptr sqes = record {
  khead = ptr + p.sq_off.head;
  ktail = ptr + p.sq_off.tail;
  kring_mask = ptr + p.sq_off.ring_mask;
  kring_entries = ptr + p.sq_off.ring_entries;
  kflags = ptr + p.sq_off.flags;
  kdropped = ptr + p.sq_off.dropped;
  array = ptr + p.sq_off.array;
  sqes = sqes;
  sqe_head = 0;
  sqe_tail = 0;
  ring_sz = sq_ring_size p;
  ring_ptr = ptr;
}

module _ (os : Calls) where
  unfoldable pub cq_ring_size : Params → ℕ
  cq_ring_size p = p.cq_off.cqes + p.cq_entries * os.cqe_size

  unfoldable pub cq_pointers : Params → (ring_ptr : ℕ) → CqRing
  unfolding cq_ring_size
  cq_pointers p ptr = record {
    khead = ptr + p.cq_off.head;
    ktail = ptr + p.cq_off.tail;
    kring_mask = ptr + p.cq_off.ring_mask;
    kring_entries = ptr + p.cq_off.ring_entries;
    koverflow = ptr + p.cq_off.overflow;
    cqes = ptr + p.cq_off.cqes;
    ring_sz = cq_ring_size p;
    ring_ptr = ptr;
  }

  -- The entries are mapped after the ring, which is unmapped if that fails.
  abbrev pub with_entries :
      Params → (ring_ptr size : ℕ) → Attempt ℕ → List Resource → Construction SqRing
  with_entries p ptr size (fails e) held = (fails e, released (mapping ptr (sq_ring_size p)) held)
  with_entries p ptr size (gives sqes) held =
      (gives (sq_pointers p ptr sqes), mapping sqes size ∷ held)

  abbrev pub with_ring : (fd : ℕ) → Params → Attempt ℕ → List Resource → Construction SqRing
  with_ring fd p (fails e) held = (fails e, held)
  with_ring fd p (gives ptr) held =
      let size = p.sq_entries * os.sqe_size in
      with_entries p ptr size (os.mmap size fd off_sqes) (mapping ptr (sq_ring_size p) ∷ held)

  unfoldable pub new_sq : (fd : ℕ) → Params → List Resource → Construction SqRing
  unfolding sq_ring_size sq_pointers
  new_sq fd p held = with_ring fd p (os.mmap (sq_ring_size p) fd off_sq_ring) held

  unfoldable pub destroy_sq : SqRing → List Resource → List Resource
  destroy_sq this held =
      let held' = released (mapping this.sqes (os.load this.kring_entries * os.sqe_size)) held in
      released (mapping this.ring_ptr this.ring_sz) held'

  abbrev pub with_cq_ring : Params → Attempt ℕ → List Resource → Construction CqRing
  with_cq_ring p (fails e) held = (fails e, held)
  with_cq_ring p (gives ptr) held = (gives (cq_pointers p ptr), mapping ptr (cq_ring_size p) ∷ held)

  unfoldable pub new_cq : (fd : ℕ) → Params → List Resource → Construction CqRing
  unfolding cq_ring_size cq_pointers
  new_cq fd p held = with_cq_ring p (os.mmap (cq_ring_size p) fd off_cq_ring) held

  unfoldable pub destroy_cq : CqRing → List Resource → List Resource
  destroy_cq this held = released (mapping this.ring_ptr this.ring_sz) held

  -- Where a constructor throws, the members that were constructed are destroyed, and `~IOUring` is not
  -- called.
  abbrev pub with_cq : (fd : ℕ) → Params → SqRing → Construction CqRing → Construction IoUring
  with_cq fd p sq (fails e, held) = (fails e, destroy_sq sq held)
  with_cq fd p sq (gives cq, held) =
      (gives (record { ring_fd = fd; flags = p.flags; sq = sq; cq = cq }), held)

  abbrev pub with_sq : (fd : ℕ) → Params → Construction SqRing → Construction IoUring
  with_sq fd p (fails e, held) = (fails e, held)
  with_sq fd p (gives sq, held) = with_cq fd p sq (new_cq fd p held)

  abbrev pub with_fd : Attempt (ℕ × Params) → List Resource → Construction IoUring
  with_fd (fails e) held = (fails e, held)
  with_fd (gives (fd, p)) held = with_sq fd p (new_sq fd p (descriptor fd ∷ held))

  unfoldable pub construct : (entries : ℕ) → Params → List Resource → Construction IoUring
  unfolding new_sq new_cq destroy_sq
  construct entries p held = with_fd (os.io_uring_setup entries p) held

  -- The body of `~IOUring`, and then the members, the last one first.
  unfoldable pub destroy : IoUring → List Resource → List Resource
  unfolding destroy_cq destroy_sq
  destroy this held =
      destroy_sq this.sq (destroy_cq this.cq (released (descriptor this.ring_fd) held))
