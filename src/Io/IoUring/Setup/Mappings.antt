-- ===== src/Io/IoUring/Setup/Mappings.antt =====
-- Which descriptor and mappings the constructor and the destructor of `IOUring` leave
-- (bipolar/io/io_uring.cpp).
use bipolar.Common.{ℕ, ◌+◌, ◌*◌, true, ◌≡◌, refl, ap, ◌∙◌, ◌⊎◌, inl, inr, List, ◌∷◌, arith}
use bipolar.Io.IoUring.Setup.{
  Params, Calls, Attempt, gives, fails, Resource, descriptor, mapping, same_resource, released,
  Construction, IoUring, off_sq_ring, off_sqes, off_cq_ring, sq_ring_size, sq_pointers,
  cq_ring_size, cq_pointers, with_entries, with_ring, with_cq_ring, with_cq, with_sq, with_fd,
  new_sq, new_cq, destroy_sq, destroy_cq, construct, destroy,
}

same_refl : (r : Resource) → same_resource r r ≡ true
same_refl (descriptor a) = ground arith
same_refl (mapping a n) = ground arith

released_first : (r : Resource) (held : List Resource) → released r (r ∷ held) ≡ held
released_first r held = rw (same_refl r) refl

-- The kernel writes the number of the entries, which it returns in the parameters, into the mapping of
-- the ring.
abbrev pub IsShared : Calls → Type 0
IsShared os =
    (entries : ℕ) (p p' : Params) (fd ptr : ℕ)
    → os.io_uring_setup entries p ≡ gives (fd, p')
    → os.mmap (sq_ring_size p') fd off_sq_ring ≡ gives ptr
    → os.load (ptr + p'.sq_off.ring_entries) ≡ p'.sq_entries

module _ (os : Calls) where
  -- One of the three mappings fails with that `errno`.
  abbrev Fails : ℕ → Params → ℕ → Type 0
  Fails fd p e =
      (os.mmap (sq_ring_size p) fd off_sq_ring ≡ fails e)
      ⊎ (os.mmap (p.sq_entries * os.sqe_size) fd off_sqes ≡ fails e)
      ⊎ (os.mmap (cq_ring_size os p) fd off_cq_ring ≡ fails e)

  -- What a construction does, and what is held after it, by what `io_uring_setup` returned.
  abbrev pub Leaves : List Resource → Attempt (ℕ × Params) → Construction IoUring → Type 0
  Leaves held (fails e) (result, held') = (result ≡ fails e) × (held' ≡ held)
  Leaves held (gives (fd, p)) (fails e, held') = Fails fd p e × (held' ≡ descriptor fd ∷ held)
  Leaves held (gives (fd, p)) (gives ring, held') = destroy os ring held' ≡ held

  destroy-sq_pointers :
      (p : Params) (ptr sqes : ℕ) (held : List Resource)
      → os.load (ptr + p.sq_off.ring_entries) ≡ p.sq_entries
      → destroy_sq os
          (sq_pointers p ptr sqes)
          (mapping sqes (p.sq_entries * os.sqe_size) ∷ mapping ptr (sq_ring_size p) ∷ held)
        ≡ held
  unfolding destroy_sq sq_pointers
  destroy-sq_pointers p ptr sqes held h =
      let ring = mapping ptr (sq_ring_size p) in
      let entries : ℕ → Resource = λ n. mapping sqes (n * os.sqe_size) in
      let maps = entries p.sq_entries ∷ ring ∷ held in
      ap (λ n. released ring (released (entries n) maps)) h
      ∙ ap (released ring) (released_first (entries p.sq_entries) (ring ∷ held))
      ∙ released_first ring held

  module _ (fd : ℕ) (p : Params) (held : List Resource) where
    destroyed :
        (ptr sqes cptr : ℕ)
        → os.load (ptr + p.sq_off.ring_entries) ≡ p.sq_entries
        → destroy os
            (record {
              ring_fd = fd;
              flags = p.flags;
              sq = sq_pointers p ptr sqes;
              cq = cq_pointers os p cptr;
            })
            (mapping cptr (cq_ring_size os p)
              ∷ mapping sqes (p.sq_entries * os.sqe_size)
              ∷ mapping ptr (sq_ring_size p)
              ∷ descriptor fd
              ∷ held)
          ≡ held
    unfolding destroy destroy_cq cq_pointers
    destroyed ptr sqes cptr h =
        let maps =
          mapping sqes (p.sq_entries * os.sqe_size) ∷ mapping ptr (sq_ring_size p) ∷ held in
        rw (same_refl (descriptor fd), released_first (mapping cptr (cq_ring_size os p)) maps)
          (destroy-sq_pointers p ptr sqes held h)

    cq_step :
        (ptr sqes : ℕ) (r : Attempt ℕ)
        → os.mmap (cq_ring_size os p) fd off_cq_ring ≡ r
        → os.load (ptr + p.sq_off.ring_entries) ≡ p.sq_entries
        → Leaves held (gives (fd, p)) (
            with_cq os fd p (sq_pointers p ptr sqes) (
              with_cq_ring os p r (
                mapping sqes (p.sq_entries * os.sqe_size)
                ∷ mapping ptr (sq_ring_size p)
                ∷ descriptor fd
                ∷ held)))
    cq_step ptr sqes (fails e) q h =
        (inr (inr q), destroy-sq_pointers p ptr sqes (descriptor fd ∷ held) h)
    cq_step ptr sqes (gives cptr) q h = destroyed ptr sqes cptr h

    sq_step :
        (ptr : ℕ) (r : Attempt ℕ)
        → os.mmap (p.sq_entries * os.sqe_size) fd off_sqes ≡ r
        → os.load (ptr + p.sq_off.ring_entries) ≡ p.sq_entries
        → Leaves held (gives (fd, p)) (
            with_sq os fd p (
              with_entries os p ptr
                (p.sq_entries * os.sqe_size)
                r
                (mapping ptr (sq_ring_size p) ∷ descriptor fd ∷ held)))
    unfolding new_cq
    sq_step ptr (fails e) q h =
        (inr (inl q), released_first (mapping ptr (sq_ring_size p)) (descriptor fd ∷ held))
    sq_step ptr (gives sqes) q h =
        cq_step ptr sqes (os.mmap (cq_ring_size os p) fd off_cq_ring) refl h

    ring_step :
        (r : Attempt ℕ)
        → os.mmap (sq_ring_size p) fd off_sq_ring ≡ r
        → ((ptr : ℕ) → r ≡ gives ptr → os.load (ptr + p.sq_off.ring_entries) ≡ p.sq_entries)
        → Leaves held (gives (fd, p)) (with_sq os fd p (with_ring os fd p r (descriptor fd ∷ held)))
    ring_step (fails e) q h = (inl q, refl)
    ring_step (gives ptr) q h =
        sq_step ptr (os.mmap (p.sq_entries * os.sqe_size) fd off_sqes) refl (h ptr refl)

  fd_step :
      (r : Attempt (ℕ × Params)) (held : List Resource)
      → ((fd : ℕ) (p : Params) (ptr : ℕ)
          → r ≡ gives (fd, p)
          → os.mmap (sq_ring_size p) fd off_sq_ring ≡ gives ptr
          → os.load (ptr + p.sq_off.ring_entries) ≡ p.sq_entries)
      → Leaves held r (with_fd os r held)
  unfolding new_sq
  fd_step (fails e) held h = (refl, refl)
  fd_step (gives (fd, p)) held h =
      ring_step fd p held (os.mmap (sq_ring_size p) fd off_sq_ring) refl (λ ptr. h fd p ptr refl)

-- Where the kernel's number of the entries is that of the parameters, whatever was held before:
-- if `io_uring_setup` fails, the constructor throws its `errno` and holds nothing more. Else it
-- throws only if one of the three mappings fails, with its `errno`, and then every mapping made before
-- is unmapped, but the descriptor stays open. If the constructor returns, the destructor releases all
-- that it acquired, and nothing else.
pub construct-Leaves :
    (os : Calls) (entries : ℕ) (p : Params) (held : List Resource)
    → IsShared os
    → Leaves os held (os.io_uring_setup entries p) (construct os entries p held)
unfolding construct
construct-Leaves os entries p held h =
    fd_step os (os.io_uring_setup entries p) held (λ fd p' ptr. h entries p p' fd ptr)
