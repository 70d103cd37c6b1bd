-- ===== src/Net/Os/Descriptors.antt =====
-- What the sockets and `Epoll` rely on of the system calls, as to which descriptors are open, and what an
-- operation does to the descriptors that are open and those that its objects own.
use bipolar.Common.{ℕ, ◌+◌, ◌≤◌, ◌≡◌, ◌==◌, if◌then◌else◌, Option, none, some}
use bipolar.Core.Result.{Result, pending, ok, err}
use bipolar.Net.Native.{Sockaddr, sockaddr_in, sockaddr_in6, other, size_in, size_in6}
use bipolar.Net.Os.{Os, CInt, Level, OptionName}

-- Whether this is the descriptor `k`, as 1 or 0.
abbrev pub owns : CInt → ℕ → ℕ
owns none k = 0
owns (some n) k = if n == k then 1 else 0

-- What a successful result owns.
abbrev pub owned_by {ℓ} : {A : Type ℓ} → (A → ℕ → ℕ) → Result A ℕ → ℕ → ℕ
owned_by own pending k = 0
owned_by own (ok a) k = own a k
owned_by own (err e) k = 0

-- A call that failed, or wrote an address of one of the two families and its length.
abbrev pub IsNamed : CInt × Sockaddr × ℕ → Type 0
IsNamed (none, addr, len) = Unit
IsNamed (some n, sockaddr_in a port, len) = size_in ≤ len
IsNamed (some n, sockaddr_in6 a port _ _, len) = size_in6 ≤ len
IsNamed (some n, other _, len) = ⊥

module _ (O : Os) (opened : O.State → ℕ → ℕ) where
  -- The documented behaviour: `opened s k` is 1 if the descriptor `k` is open, else 0. A new descriptor
  -- was not open before; `close` gives up a descriptor that is open even if it reports an error.
  pub record IsDescriptors : Type 0 where
    pub once : (s : O.State) (k : ℕ) → opened s k ≤ 1
    pub socket_opens :
        (s : O.State) (k : ℕ) {f : _} {t : _}
        → opened (O.socket f t s).1 k ≡ opened s k + owns (O.socket f t s).0 k
    pub dup_opens :
        (s : O.State) (k : ℕ) (fd : CInt)
        → opened (O.dup fd s).1 k ≡ opened s k + owns (O.dup fd s).0 k
    pub epoll_create1_opens :
        (s : O.State) (k : ℕ)
        → opened (O.epoll_create1 s).1 k ≡ opened s k + owns (O.epoll_create1 s).0 k
    pub accept4_opens :
        (s : O.State) (k : ℕ) (fd : CInt)
        → opened (O.accept4 fd s).1 k ≡ opened s k + owns (O.accept4 fd s).0.0 k
    pub close_closes :
        (s : O.State) (k n : ℕ)
        → opened s n ≡ 1
        → opened (O.close (some n) s).1 k + owns (some n) k ≡ opened s k
    pub connect_keeps :
        (s : O.State) (k : ℕ) (fd : CInt) (addr : Sockaddr) (len : ℕ)
        → opened (O.connect fd addr len s).1 k ≡ opened s k
    pub bind_keeps :
        (s : O.State) (k : ℕ) (fd : CInt) (addr : Sockaddr) (len : ℕ)
        → opened (O.bind fd addr len s).1 k ≡ opened s k
    pub listen_keeps :
        (s : O.State) (k : ℕ) (fd : CInt) (backlog : ℕ)
        → opened (O.listen fd backlog s).1 k ≡ opened s k
    pub set_int_keeps :
        (s : O.State) (k : ℕ) (fd : CInt) (level : Level) (name : OptionName) (value : ℕ)
        → opened (O.set_int fd level name value s).1 k ≡ opened s k

  -- The operation that began in `s` returns, and after it the open descriptors have changed as much as
  -- those owned: `before` by what it used, `after` by what it returns.
  abbrev pub Conserves {ℓ} :
      {A : Type ℓ} → O.State → (ℕ → ℕ) → (A → ℕ → ℕ) → Option (A × O.State) → Type 0
  Conserves s before after none = ⊥
  Conserves s before after (some (a, s')) =
      (k : ℕ) → opened s' k + before k ≡ opened s k + after a k

  -- A descriptor that an object holds is open.
  abbrev pub Held : O.State → CInt → Type 0
  Held s none = Unit
  Held s (some n) = opened s n ≡ 1
