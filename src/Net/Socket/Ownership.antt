-- ===== src/Net/Socket/Ownership.antt =====
-- The operations of the sockets neither lose a descriptor nor close one twice.
use bipolar.Common.{ℕ, ◌+◌, ◌≡◌, Option, none, some, arith, refl}
use bipolar.Net.Os.{Os, CInt, continued, ok_or_errno, pure}
use bipolar.Net.Os.Descriptors.{owns, owned_by, IsDescriptors, Conserves, Held}
use bipolar.Net.Socket.{
  Socket, of_fd, close_fd, close, destroy, move, swap, assign, try_clone, new_or_errno,
}

-- What a socket, and a pair with a socket, owns.
abbrev pub owned : Socket → ℕ → ℕ
owned this = owns this.fd

abbrev pub owned_pair : {A : Type 0} → Socket × A → ℕ → ℕ
owned_pair (this, _) = owned this

module _ (O : Os) (opened : O.State → ℕ → ℕ) (D : IsDescriptors O opened) where
  pub new_or_errno-Conserves :
      (s₀ s : O.State) (r : CInt)
      → ((k : ℕ) → opened s k ≡ opened s₀ k + owns r k)
      → Conserves O opened s₀ (λ k. 0) (owned_by owned) (new_or_errno O r s)
  new_or_errno-Conserves s₀ s none h = λ k. omega (arith, h k)
  new_or_errno-Conserves s₀ s (some n) h = λ k. omega (arith, h k)

  pub try_clone-Conserves :
      (this : Socket) (s : O.State)
      → Conserves O opened s (λ k. 0) (owned_by owned) (try_clone O this s)
  unfolding try_clone
  try_clone-Conserves this s =
      new_or_errno-Conserves s _ (O.dup this.fd s).0 (λ k. D.dup_opens s k this.fd)

  closed-Conserves :
      {A : Type 0} (s₀ s : O.State) (before : ℕ → ℕ) (a : A) (ret : CInt)
      → ((k : ℕ) → opened s k + before k ≡ opened s₀ k)
      → Conserves O opened s₀ before (λ _ k. 0) (ok_or_errno O a ret s)
  closed-Conserves s₀ s before a none h = λ k. omega (arith, h k)
  closed-Conserves s₀ s before a (some n) h = λ k. omega (arith, h k)

  close_fd-Conserves :
      (s : O.State) (fd : CInt)
      → Held O opened s fd
      → Conserves O opened s (owns fd) (λ _ k. 0) (close_fd O fd s)
  close_fd-Conserves s none h = λ k. refl
  close_fd-Conserves s (some n) h =
      closed-Conserves s _ (owns (some n)) tt _ (λ k. D.close_closes s k n h)

  -- A step after an operation, that makes no calls. `extra` is what other objects own.
  Conserves-then :
      {A B : Type 0} (s : O.State) (extra before before' : ℕ → ℕ) (after : A → ℕ → ℕ)
      (after' : B → ℕ → ℕ) (m : Option (A × O.State)) (f : A → B)
      → ((k : ℕ) → before' k ≡ before k + extra k)
      → ((a : A) (k : ℕ) → after' (f a) k ≡ after a k + extra k)
      → Conserves O opened s before after m
      → Conserves O opened s before' after' (continued (λ a. pure (f a)) m)
  Conserves-then s extra before before' after after' none f b e h = h
  Conserves-then s extra before before' after after' (some (a, s')) f b e h =
      λ k. omega (arith, h k, b k, e a k)

  pub close-Conserves :
      (this : Socket) (s : O.State)
      → Held O opened s this.fd
      → Conserves O opened s (owned this) (λ r. owned r.1) (close O this s)
  unfolding close
  close-Conserves this s h =
      Conserves-then s (λ k. 0) (owned this) _ _ _ _ (λ r. (r, record this { fd = none }))
        (λ k. omega arith) (λ a k. omega arith) (close_fd-Conserves s this.fd h)

  pub destroy-Conserves :
      (this : Socket) (s : O.State)
      → Held O opened s this.fd
      → Conserves O opened s (owned this) (λ _ k. 0) (destroy O this s)
  unfolding destroy close
  destroy-Conserves this s h =
      let r : Conserves O opened s (owned this) (λ _ k. 0) (close O this s) =
        Conserves-then s (λ k. 0) (owned this) _ _ (λ _ k. 0) _
          (λ r. (r, record this { fd = none })) (λ k. omega arith) (λ a k. omega arith)
          (close_fd-Conserves s this.fd h) in
      Conserves-then s (λ k. 0) (owned this) _ _ _ _ (λ _. tt) (λ k. omega arith)
        (λ a k. omega arith) r

  pub assign-Conserves :
      (this rhs : Socket) (s : O.State)
      → Held O opened s this.fd
      → Conserves O opened s
          (λ k. owned this k + owned rhs k)
          (λ r k. owned r.0 k + owned r.1 k)
          (assign O this rhs s)
  unfolding assign move swap
  assign-Conserves this rhs s h =
      Conserves-then s (owned rhs) (owned this) _ _ _ _
        (λ _. (of_fd rhs.fd, record rhs { fd = none })) (λ k. refl) (λ a k. omega arith)
        (destroy-Conserves (of_fd this.fd) s h)
