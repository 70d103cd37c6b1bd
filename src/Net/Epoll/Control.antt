-- ===== src/Net/Epoll/Control.antt =====
-- bipolar/net/epoll.hpp and epoll.cpp: `Epoll` but for `poll`. The constructors, the move, `try_clone`, the
-- assignment, `swap` and `as_fd` have the code of those of the sockets, so that an `Epoll` is a
-- `Socket` of Net/Socket.
use bipolar.Common.{ℕ, ◌≡◌, refl, ◌==◌, if◌then◌else◌, Option, none, some, List, [], ◌∷◌, ◌++◌}
use bipolar.Common.Chars.{Text}
use bipolar.Core.Result.{Result}
use bipolar.Net.Os.{
  Os, CInt, Action, pure, call, continued, ◌>>=◌, ◌>>◌, ok_or_errno, EpollOp, EpollData,
  epoll_ctl_add, epoll_ctl_mod, epoll_ctl_del,
}
use bipolar.Net.Socket.{Socket, new_or_errno, close_fd}
use bipolar.Net.Socket as socket
use Prim.Native.Nat.{bit_and}

abbrev pub Epoll : Type 0
Epoll = Socket

module _ (O : Os) where
  unfoldable pub create : Action O.State (Result Epoll ℕ)
  create = do epfd ← call O.epoll_create1; new_or_errno O epfd

  -- The destructor. The error of `close` goes to the log.
  unfoldable pub destroy : Epoll → Action O.State (Unit {0})
  destroy this = do close_fd O this.fd; pure tt

  -- The template at the type of the argument `data`.
  unfoldable pub epoll_control :
      Epoll → EpollOp → CInt → EpollData O.Pointer → ℕ → Action O.State (Result (Unit {0}) ℕ)
  epoll_control this op fd value interests = do
    ret ← call (O.epoll_ctl this.fd op fd (some (record { events = interests; data_ = value })))
    ok_or_errno O tt ret

  unfoldable pub add : Epoll → CInt → EpollData O.Pointer → ℕ → Action O.State (Result (Unit {0}) ℕ)
  unfolding epoll_control
  add this fd value interests = epoll_control this epoll_ctl_add fd value interests

  unfoldable pub mod_ :
      Epoll → CInt → EpollData O.Pointer → ℕ → Action O.State (Result (Unit {0}) ℕ)
  unfolding epoll_control
  mod_ this fd value interests = epoll_control this epoll_ctl_mod fd value interests

  unfoldable pub del : Epoll → CInt → Action O.State (Result (Unit {0}) ℕ)
  del this fd = do ret ← call (O.epoll_ctl this.fd epoll_ctl_del fd none); ok_or_errno O tt ret

-- The destructor does what that of a socket does, which closes by `close`.
pub destroy-close :
    (O : Os) (this : Epoll) (s : O.State) → destroy O this s ≡ socket.destroy O this s
unfolding destroy socket.destroy socket.close
destroy-close O this s = go (close_fd O this.fd s)
  where
    go :
        (m : Option (Result (Unit {0}) ℕ × O.State))
        → continued (λ _. pure tt) m
          ≡ continued {A = Result (Unit {0}) ℕ × Socket}
              (λ _. pure tt)
              (continued {B = Result (Unit {0}) ℕ × Socket}
                (λ r. pure (r, record this { fd = none }))
                m)
    go none = refl
    go (some x) = refl

-- `opt_tbl` is the flags of the system's header with their names, in the order of the code.
unfoldable pub stringify_interests : (opt_tbl : List (ℕ × Text)) → (interests : ℕ) → Text
stringify_interests [] interests = []
stringify_interests ((flag, name) ∷ opt_tbl) interests =
    let rest = stringify_interests opt_tbl interests in
    if bit_and interests flag == 0 then rest else name ++ 32 ∷ rest
