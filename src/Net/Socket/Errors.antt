-- ===== src/Net/Socket/Errors.antt =====
-- Which error the functions that make sockets report, and when `accept` loses a connection.
use bipolar.Common.{
  ℕ, ◌+◌, ◌≡◌, ◌==◌, leb, if◌then◌else◌, Bool-cases, Option, none, some, List, [], ◌∷◌, arith, drop,
  refl, sym, subst, inl, inr, ◌↔◌,
}
use bipolar.Common.Outcome.{returns}
use bipolar.Core.Result.{Result, pending, ok, err, map}
use bipolar.Net.SocketAddress.{SocketAddress}
use bipolar.Net.Native.{
  Sockaddr, sockaddr_in, sockaddr_in6, other, size_in, size_in6, to_sockaddr, sockaddr_len,
  native_addr_to_socket_address,
}
use bipolar.Net.Os.{
  Os, CInt, Action, noexcept, continued, ◌>>=◌, call, pure, stream, sol_socket, so_reuseaddr,
  so_reuseport, OptionName,
}
use bipolar.Net.Os.Descriptors.{owns, owned_by, IsNamed, IsDescriptors, Conserves}
use bipolar.Net.Socket.{Socket, of_fd}
use bipolar.Net.Socket.Ownership.{owned_pair}
use bipolar.Net.Socket.Creation.{accept-Creates}
use bipolar.Net.Tcp.{connect, connect_socket, after_connect}
use bipolar.Net.Tcp.Listener.{
  set_option, bind_address, bind_socket, bind, or_close, listen_socket, max_backlog, accept,
  accepted,
}

module _ (O : Os) where
  -- The reference: the calls one after the other until one fails, and the `errno` that the call left.
  abbrev attempted : CInt → ℕ → Option ℕ → Option ℕ
  attempted none e rest = some e
  attempted (some _) e rest = rest

  abbrev pub first_error : List (O.State → CInt × O.State) → O.State → Option ℕ
  first_error [] s = none
  first_error (f ∷ fs) s = attempted (f s).0 (O.errno (f s).1) (first_error fs (f s).1)

  -- The same, where the first call gives the descriptor for the others.
  abbrev pub first_error_of : (ℕ → O.State → Option ℕ) → CInt × O.State → Option ℕ
  first_error_of rest (none, s) = some (O.errno s)
  first_error_of rest (some n, s) = rest n s

  -- The same on the socket `n`, with the `errno` that closing it after the failed call leaves.
  abbrev pub first_error_closing : ℕ → List (O.State → CInt × O.State) → O.State → Option ℕ
  first_error_closing n [] s = none
  first_error_closing n (f ∷ fs) s =
      attempted (f s).0 (O.errno (O.close (some n) (f s).1).1) (first_error_closing n fs (f s).1)

  -- A connection that is in progress is not an error.
  abbrev pub unless_in_progress : Option ℕ → Option ℕ
  unless_in_progress none = none
  unless_in_progress (some e) = if e == O.einprogress then none else some e

  -- The call returns, with this error or, for `none`, a value.
  abbrev pub Reports : {A : Type 0} → Option ℕ → Option (Result A ℕ × O.State) → Type 0
  Reports o none = ⊥
  Reports o (some (pending, s)) = ⊥
  Reports o (some (ok a, s)) = o ≡ none
  Reports o (some (err e, s)) = o ≡ some e

  module _ (sa : SocketAddress) (native : Sockaddr) (e : to_sockaddr sa ≡ returns native) where
    after_connect-Reports :
        (n : ℕ) (ret : CInt) (s : O.State)
        → Reports
            (unless_in_progress (attempted ret (O.errno s) none))
            (after_connect O n ret (O.errno s) s)
    after_connect-Reports n (some _) s = refl
    after_connect-Reports n none s = elim (Bool-cases (O.errno s == O.einprogress)) [
      | inl p ↦ rw p refl
      | inr p ↦ rw p refl
    ]

    connect_socket-Reports :
        (sock : CInt) (s : O.State)
        → Reports
            (first_error_of
              (λ n s.
                unless_in_progress
                  (first_error (O.connect (some n) native (sockaddr_len sa) ∷ []) s))
              (sock, s))
            (connect_socket O sa sock s)
    connect_socket-Reports none s = refl
    connect_socket-Reports (some n) s =
        subst
          (λ o.
            Reports
              (unless_in_progress
                (first_error (O.connect (some n) native (sockaddr_len sa) ∷ []) s))
              (continued
                (λ addr s.
                  after_connect O n (O.connect (some n) addr (sockaddr_len sa) s).0
                    (O.errno (O.connect (some n) addr (sockaddr_len sa) s).1)
                    (O.connect (some n) addr (sockaddr_len sa) s).1)
                (noexcept o s)))
          (sym e) (after_connect-Reports n _ _)

    -- `TcpStream::connect` reports the error of the call that failed, `socket` or `connect`, whatever
    -- closing the socket does to `errno`; a connection in progress is a success.
    pub connect-first_error :
        (s : O.State)
        → Reports
            (first_error_of
              (λ n s.
                unless_in_progress
                  (first_error (O.connect (some n) native (sockaddr_len sa) ∷ []) s))
              (O.socket sa.addr.family stream s))
            (connect O sa s)
    unfolding connect
    connect-first_error s = connect_socket-Reports _ _

    -- The calls of `bind` on the socket `n`.
    abbrev pub bind_calls : ℕ → List (O.State → CInt × O.State)
    bind_calls n =
        O.set_int (some n) sol_socket so_reuseaddr 1
        ∷ O.set_int (some n) sol_socket so_reuseport 1
        ∷ O.bind (some n) native (sockaddr_len sa)
        ∷ O.listen (some n) max_backlog
        ∷ []

    or_close-Reports :
        {A : Type 0} (n : ℕ) (ret : CInt) (rest : Action O.State (Result A ℕ)) (o : Option ℕ)
        (s : O.State)
        → Reports o (rest s)
        → Reports (attempted ret (O.errno (O.close (some n) s).1) o) (or_close O n ret rest s)
    unfolding or_close
    or_close-Reports n none rest o s h = refl
    or_close-Reports n (some _) rest o s h = h

    set_option-Reports :
        {A : Type 0} (n : ℕ) (name : OptionName) (rest : Action O.State (Result A ℕ))
        (fs : List (O.State → CInt × O.State)) (s : O.State)
        → ((s' : O.State) → Reports (first_error_closing n fs s') (rest s'))
        → Reports
            (first_error_closing n (O.set_int (some n) sol_socket name 1 ∷ fs) s)
            (set_option O n name rest s)
    unfolding set_option
    set_option-Reports n name rest fs s h = or_close-Reports n _ rest _ _ (h _)

    bind_address-Reports :
        {A : Type 0} (n : ℕ) (rest : Action O.State (Result A ℕ))
        (fs : List (O.State → CInt × O.State)) (s : O.State)
        → ((s' : O.State) → Reports (first_error_closing n fs s') (rest s'))
        → Reports
            (first_error_closing n (O.bind (some n) native (sockaddr_len sa) ∷ fs) s)
            (bind_address O sa n rest s)
    unfolding bind_address
    bind_address-Reports n rest fs s h =
        subst
          (λ o. Reports (first_error_closing n (O.bind (some n) native (sockaddr_len sa) ∷ fs) s) (
            continued
              (λ addr.
                call (O.bind (some n) addr (sockaddr_len sa)) >>= λ ret. or_close O n ret rest)
              (noexcept o s)))
          (sym e) (or_close-Reports n _ rest _ _ (h _))

    listen_socket-Reports :
        (n : ℕ) (s : O.State)
        → Reports
            (first_error_closing n (O.listen (some n) max_backlog ∷ []) s)
            (listen_socket O n s)
    unfolding listen_socket
    listen_socket-Reports n s = or_close-Reports n _ (pure (ok (of_fd (some n)))) none _ refl

    bind_socket-Reports :
        (sock : CInt) (s : O.State)
        → Reports
            (first_error_of (λ n. first_error_closing n (bind_calls n)) (sock, s))
            (bind_socket O sa sock s)
    unfolding bind_socket
    bind_socket-Reports none s = refl
    bind_socket-Reports (some n) s = set_option-Reports n _ _ (drop 1 (bind_calls n)) s λ s₁.
        set_option-Reports n _ _ (drop 2 (bind_calls n)) s₁
          λ s₂. bind_address-Reports n _ (drop 3 (bind_calls n)) s₂ (listen_socket-Reports n)

    -- `TcpListener::bind` calls `socket`, both `setsockopt`, `bind` and `listen` until one fails, and
    -- succeeds if none does. It reports the `errno` of `socket`; but if a later call fails, it reports
    -- the `errno` that closing the socket leaves, which need not be that of the call.
    pub bind-error_after_close :
        (s : O.State)
        → Reports
            (first_error_of
              (λ n. first_error_closing n (bind_calls n))
              (O.socket sa.addr.family stream s))
            (bind O sa s)
    unfolding bind
    bind-error_after_close s = bind_socket-Reports _ _

  module _ (opened : O.State → ℕ → ℕ) (D : IsDescriptors O opened) where
    lost :
        (s₀ s : O.State) (conn : CInt × Sockaddr × ℕ)
        → ((k : ℕ) → opened s k ≡ opened s₀ k + owns conn.0 k)
        → Conserves O opened s₀ (λ _. 0) (owned_by owned_pair) (accepted O conn s)
        → IsNamed conn
    unfolding map native_addr_to_socket_address
    lost s₀ s (none, addr, len) h c = tt
    lost s₀ s (some n, sockaddr_in a port, len) h c = elim (Bool-cases (leb size_in len)) [
      | inl p ↦ ground (arith, p)
      | inr p ↦ absurd (rw p at c)
    ]
    lost s₀ s (some n, sockaddr_in6 a port f z, len) h c = elim (Bool-cases (leb size_in6 len)) [
      | inl p ↦ ground (arith, p)
      | inr p ↦ absurd (rw p at c)
    ]
    lost s₀ s (some n, other _, len) h c = ground (arith, h n, c n)

    -- `TcpListener::accept` returns and keeps track of the descriptors exactly if `accept4` fails or
    -- names the peer by a whole address of one of the two families. Else the new descriptor is lost.
    pub accept_keeps_iff :
        (this : Socket) (s : O.State)
        → Conserves O opened s (λ _. 0) (owned_by owned_pair) (accept O this s)
          ↔ IsNamed (O.accept4 this.fd s).0
    unfolding accept
    accept_keeps_iff this s = (
      lost s _ (O.accept4 this.fd s).0 (λ k. D.accept4_opens s k this.fd),
      accept-Creates O opened D this s,
    )
