-- ===== src/Net/Os.antt =====
-- The system calls that the sockets and `Epoll` of bipolar/net make, as a parameter, and calls one after the
-- other.
pub mod Descriptors
use bipolar.Common.{ℕ, Bool, true, false, Option, none, some}
use bipolar.Common.Outcome.{Outcome, returns, throws, aborts}
use bipolar.Core.Result.{Result, ok, err}
use bipolar.Net.IpAddress.{Family}
use bipolar.Net.Native.{Sockaddr}

-- A descriptor, or what a call returns: `none` is -1.
abbrev pub CInt : Type 0
CInt = Option ℕ

pub data SocketType : Type 0 where
  stream dgram : SocketType

-- The levels and the names of options that occur.
pub data Level : Type 0 where
  sol_socket sol_tcp : Level

pub data OptionName : Type 0 where
  so_reuseaddr so_reuseport so_error so_linger tcp_nodelay tcp_info : OptionName

-- Both members are the bits of an `int`.
pub record Linger : Type 0 where
  pub l_onoff : ℕ
  pub l_linger : ℕ

pub data EpollOp : Type 0 where
  epoll_ctl_add epoll_ctl_mod epoll_ctl_del : EpollOp

-- The union `epoll_data`, with the member that was assigned.
pub data EpollData (Pointer : Type 0) : Type 0 where
  ptr : Pointer → EpollData Pointer
  fd u32 u64 : ℕ → EpollData Pointer

pub record EpollEvent (Pointer : Type 0) : Type 0 where
  pub events : ℕ
  pub data_ : EpollData Pointer

-- `State` is all that is outside the objects: the kernel, `errno`, and the memory with the caller's
-- buffers, to which a `Pointer` points. A call gives what it returns, then what it writes to the
-- variables of its caller, then the state. Flags, lengths and the arguments of `shutdown` and `ioctl`
-- are passed on as they are.
pub record Os : Type 1 where
  pub State : Type 0
  pub Pointer : Type 0
  pub TcpInfo : Type 0
  pub errno : State → ℕ
  pub einprogress : ℕ
  pub einval : ℕ
  pub socket : Family → SocketType → State → CInt × State
  pub dup : CInt → State → CInt × State
  pub close : CInt → State → CInt × State
  pub connect : CInt → Sockaddr → ℕ → State → CInt × State
  pub bind : CInt → Sockaddr → ℕ → State → CInt × State
  pub listen : CInt → ℕ → State → CInt × State
  pub accept4 : CInt → State → (CInt × Sockaddr × ℕ) × State
  pub getsockname : CInt → State → (CInt × Sockaddr × ℕ) × State
  pub getpeername : CInt → State → (CInt × Sockaddr × ℕ) × State
  pub set_int : CInt → Level → OptionName → ℕ → State → CInt × State
  pub set_linger : CInt → Level → OptionName → Linger → State → CInt × State
  pub get_int : CInt → Level → OptionName → ℕ → State → (CInt × ℕ) × State
  pub get_linger : CInt → Level → OptionName → State → (CInt × Linger) × State
  pub get_tcp_info : CInt → Level → OptionName → State → (CInt × TcpInfo) × State
  pub ioctl_fionbio : CInt → ℕ → State → CInt × State
  pub shutdown : CInt → ℕ → State → CInt × State
  pub send : CInt → Pointer → ℕ → ℕ → State → CInt × State
  pub sendto : CInt → Pointer → ℕ → ℕ → Sockaddr → ℕ → State → CInt × State
  pub writev : CInt → Pointer → ℕ → State → CInt × State
  pub sendmsg : CInt → Pointer → ℕ → State → CInt × State
  pub sendmmsg : CInt → Pointer → ℕ → ℕ → State → CInt × State
  pub recv : CInt → Pointer → ℕ → ℕ → State → CInt × State
  pub recvfrom : CInt → Pointer → ℕ → ℕ → State → (CInt × Sockaddr × ℕ) × State
  pub readv : CInt → Pointer → ℕ → State → CInt × State
  pub recvmsg : CInt → Pointer → ℕ → State → CInt × State
  pub recvmmsg : CInt → Pointer → ℕ → ℕ → State → CInt × State
  pub epoll_create1 : State → CInt × State
  pub epoll_ctl : CInt → EpollOp → CInt → Option (EpollEvent Pointer) → State → CInt × State

-- Code that makes calls: `none` is the end of the program, by a failed assertion or an exception that
-- leaves a `noexcept` function.
abbrev pub Action : Type 0 → Type 0 → Type 0
Action S A = S → Option (A × S)

module _ {S : Type 0} where
  abbrev pub pure : {A : Type 0} → A → Action S A
  pure a s = some (a, s)

  abbrev pub call : {A : Type 0} → (S → A × S) → Action S A
  call f s = some (f s)

  abbrev pub asserted : {A : Type 0} → Option A → Action S A
  asserted none s = none
  asserted (some a) s = some (a, s)

  abbrev pub noexcept : {A : Type 0} → Outcome A → Action S A
  noexcept (returns a) s = some (a, s)
  noexcept (throws e) s = none
  noexcept aborts s = none

  -- What follows a call.
  abbrev pub continued : {A B : Type 0} → (A → Action S B) → Option (A × S) → Option (B × S)
  continued f none = none
  continued f (some (a, s)) = f a s

infixl 5 ◌>>=◌ ◌>>◌
abbrev pub ◌>>=◌ : {S A B : Type 0} → Action S A → (A → Action S B) → Action S B
◌>>=◌ m f s = continued f (m s)

abbrev pub ◌>>◌ : {S A B : Type 0} → Action S A → Action S B → Action S B
m >> k = m >>= λ _. k

module _ (O : Os) where
  -- `Err(errno)`.
  abbrev pub last_error : {A : Type 0} → Action O.State (Result A ℕ)
  last_error s = some (err (O.errno s), s)

  -- `Err(errno)` for -1, else `Ok` of what was returned.
  abbrev pub or_errno : CInt → Action O.State (Result ℕ ℕ)
  or_errno none = last_error
  or_errno (some n) = pure (ok n)

  -- With `Ok` of another value.
  abbrev pub ok_or_errno : {A : Type 0} → A → CInt → Action O.State (Result A ℕ)
  ok_or_errno a none = last_error
  ok_or_errno a (some n) = pure (ok a)
