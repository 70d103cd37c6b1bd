-- ===== src/Net/Socket/Creation.antt =====
-- The functions that make new sockets: what they return owns the new descriptor, and if they fail,
-- it is closed.
use bipolar.Common.{le→leb, ℕ, ◌+◌, ◌≡◌, ◌==◌, if_cases, Option, none, some, arith, sym, subst}
use bipolar.Common.Outcome.{returns}
use bipolar.Core.Result.{Result, ok, map}
use bipolar.Net.SocketAddress.{SocketAddress}
use bipolar.Net.Native.{
  size_in, size_in6, Sockaddr, sockaddr_in, sockaddr_in6, other, to_sockaddr, sockaddr_len,
  native_addr_to_socket_address,
}
use bipolar.Net.Os.{
  OptionName, Os, CInt, Action, noexcept, continued, ◌>>=◌, call, pure, sol_socket,
}
use bipolar.Net.Os.Descriptors.{owns, owned_by, IsNamed, IsDescriptors, Conserves}
use bipolar.Net.Socket.{Socket, of_fd}
use bipolar.Net.Socket.Ownership.{owned, owned_pair, new_or_errno-Conserves}
use bipolar.Net.Tcp.{connect, connect_socket, after_connect}
use bipolar.Net.Tcp.Listener as listener
use bipolar.Net.Tcp.Listener.{
  set_option, bind_address, accept, accepted, or_close, listen_socket, max_backlog,
}
use bipolar.Net.Udp as udp
use bipolar.Net.Epoll.Control as epoll

module _ (O : Os) (opened : O.State → ℕ → ℕ) where
  -- Since the state `s₀` the descriptor `n` was opened, and nothing else has changed.
  abbrev Holding : O.State → O.State → ℕ → Type 0
  Holding s₀ s n = (k : ℕ) → opened s k ≡ opened s₀ k + owns (some n) k

  -- A call that began in the first state makes a new object, or fails.
  abbrev pub Creates {ℓ} :
      {A : Type ℓ} → (A → ℕ → ℕ) → O.State → Option (Result A ℕ × O.State) → Type 0
  Creates own s m = Conserves O opened s (λ _. 0) (owned_by own) m

module _ (O : Os) (opened : O.State → ℕ → ℕ) (D : IsDescriptors O opened) where
  close-Holding :
      (s₀ s : O.State) (n : ℕ)
      → Holding O opened s₀ s n
      → (k : ℕ) → opened (O.close (some n) s).1 k ≡ opened s₀ k
  close-Holding s₀ s n h k =
      let is_open : opened s n ≡ 1 = ground (arith, h n, D.once s n) in
      omega (arith, h k, D.close_closes s k n is_open)

  pub or_close-Creates :
      {A : Type 0} (own : A → ℕ → ℕ) (s₀ s : O.State) (n : ℕ) (ret : CInt)
      (rest : Action O.State (Result A ℕ))
      → Holding O opened s₀ s n
      → Creates O opened own s₀ (rest s)
      → Creates O opened own s₀ (or_close O n ret rest s)
  unfolding or_close
  or_close-Creates own s₀ s n none rest h c = λ k. omega (arith, close-Holding s₀ s n h k)
  or_close-Creates own s₀ s n (some _) rest h c = c

  set_option-Creates :
      {A : Type 0} (own : A → ℕ → ℕ) (s₀ s : O.State) (n : ℕ) (o : OptionName)
      (rest : Action O.State (Result A ℕ))
      → Holding O opened s₀ s n
      → ((s' : O.State) → Holding O opened s₀ s' n → Creates O opened own s₀ (rest s'))
      → Creates O opened own s₀ (set_option O n o rest s)
  unfolding set_option
  set_option-Creates own s₀ s n o rest h c =
      let h' : Holding O opened s₀ (O.set_int (some n) sol_socket o 1 s).1 n =
        λ k. omega (arith, h k, D.set_int_keeps s k (some n) sol_socket o 1) in
      or_close-Creates own s₀ _ n (O.set_int (some n) sol_socket o 1 s).0 rest h' (c _ h')

  after_connect-Creates :
      (s₀ s : O.State) (n : ℕ) (ret : CInt) (e : ℕ)
      → Holding O opened s₀ s n
      → Creates O opened owned s₀ (after_connect O n ret e s)
  after_connect-Creates s₀ s n (some _) e h = λ k. omega (arith, h k)
  after_connect-Creates s₀ s n none e h =
      if_cases (λ (m : Action O.State (Result Socket ℕ)). Creates O opened owned s₀ (m s))
        (e == O.einprogress) (λ _ k. omega (arith, h k))
        (λ _ k. omega (arith, close-Holding s₀ s n h k))

  module _ (sa : SocketAddress) (native : Sockaddr) (e : to_sockaddr sa ≡ returns native) where
    -- The address as it was converted.
    converted :
        {A : Type 0} (own : A → ℕ → ℕ) (s₀ s : O.State)
        (rest : Sockaddr → Action O.State (Result A ℕ))
        → Creates O opened own s₀ (rest native s)
        → Creates O opened own s₀ (continued rest (noexcept (to_sockaddr sa) s))
    converted own s₀ s rest h =
        subst (λ o. Creates O opened own s₀ (continued rest (noexcept o s))) (sym e) h

    connect_socket-Creates :
        (s₀ s : O.State) (sock : CInt)
        → ((k : ℕ) → opened s k ≡ opened s₀ k + owns sock k)
        → Creates O opened owned s₀ (connect_socket O sa sock s)
    connect_socket-Creates s₀ s none h = λ k. omega (arith, h k)
    connect_socket-Creates s₀ s (some n) h = converted owned s₀ s _ (
        after_connect-Creates s₀ _ n _ _
          (λ k. omega (arith, h k, D.connect_keeps s k (some n) native (sockaddr_len sa))))

    pub connect-Creates : (s : O.State) → Creates O opened owned s (connect O sa s)
    unfolding connect
    connect-Creates s = connect_socket-Creates s _ _ (λ k. D.socket_opens s k)

    bind_address-Creates :
        {A : Type 0} (own : A → ℕ → ℕ) (s₀ s : O.State) (n : ℕ) (rest : Action O.State (Result A ℕ))
        → Holding O opened s₀ s n
        → ((s' : O.State) → Holding O opened s₀ s' n → Creates O opened own s₀ (rest s'))
        → Creates O opened own s₀ (bind_address O sa n rest s)
    unfolding bind_address
    bind_address-Creates own s₀ s n rest h c =
        let h' : Holding O opened s₀ (O.bind (some n) native (sockaddr_len sa) s).1 n =
          λ k. omega (arith, h k, D.bind_keeps s k (some n) native (sockaddr_len sa)) in
        converted own s₀ s
          (λ addr. call (O.bind (some n) addr (sockaddr_len sa)) >>= λ ret. or_close O n ret rest)
          (or_close-Creates own s₀ _ n _ rest h' (c _ h'))

    listen_socket-Creates :
        (s₀ s : O.State) (n : ℕ)
        → Holding O opened s₀ s n
        → Creates O opened owned s₀ (listen_socket O n s)
    unfolding listen_socket
    listen_socket-Creates s₀ s n h =
        let h' : Holding O opened s₀ (O.listen (some n) max_backlog s).1 n =
          λ k. omega (arith, h k, D.listen_keeps s k (some n) max_backlog) in
        or_close-Creates owned s₀ _ n _ (pure (ok (of_fd (some n)))) h' (λ k. omega (arith, h' k))

    bind_socket-Creates :
        (s₀ s : O.State) (sock : CInt)
        → ((k : ℕ) → opened s k ≡ opened s₀ k + owns sock k)
        → Creates O opened owned s₀ (listener.bind_socket O sa sock s)
    unfolding listener.bind_socket
    bind_socket-Creates s₀ s none h = λ k. omega (arith, h k)
    bind_socket-Creates s₀ s (some n) h = set_option-Creates owned s₀ s n _ _ h (λ s₁ h₁.
        set_option-Creates owned s₀ s₁ n _ _ h₁ (λ s₂ h₂.
          bind_address-Creates owned s₀ s₂ n _ h₂ (λ s' h'. listen_socket-Creates s₀ s' n h')))

    pub bind-Creates : (s : O.State) → Creates O opened owned s (listener.bind O sa s)
    unfolding listener.bind
    bind-Creates s = bind_socket-Creates s _ _ (λ k. D.socket_opens s k)

    udp_bind_socket-Creates :
        (s₀ s : O.State) (sock : CInt)
        → ((k : ℕ) → opened s k ≡ opened s₀ k + owns sock k)
        → Creates O opened owned s₀ (udp.bind_socket O sa sock s)
    unfolding udp.bind_socket
    udp_bind_socket-Creates s₀ s none h = λ k. omega (arith, h k)
    udp_bind_socket-Creates s₀ s (some n) h = set_option-Creates owned s₀ s n _ _ h (λ s₁ h₁.
        bind_address-Creates owned s₀ s₁ n (pure (ok (of_fd (some n)))) h₁
          (λ s' h' k. omega (arith, h' k)))

    pub udp_bind-Creates : (s : O.State) → Creates O opened owned s (udp.bind O sa s)
    unfolding udp.bind
    udp_bind-Creates s = udp_bind_socket-Creates s _ _ (λ k. D.socket_opens s k)

  accepted-Creates :
      (s₀ s : O.State) (conn : CInt × Sockaddr × ℕ)
      → IsNamed conn
      → ((k : ℕ) → opened s k ≡ opened s₀ k + owns conn.0 k)
      → Creates O opened owned_pair s₀ (accepted O conn s)
  unfolding map native_addr_to_socket_address
  accepted-Creates s₀ s (none, addr, len) i h = λ k. omega (arith, h k)
  accepted-Creates s₀ s (some n, sockaddr_in a port, len) i h =
      rw (le→leb size_in len i) (λ k. omega (arith, h k))
  accepted-Creates s₀ s (some n, sockaddr_in6 a port f z, len) i h =
      rw (le→leb size_in6 len i) (λ k. omega (arith, h k))
  accepted-Creates s₀ s (some n, other _, len) i h = absurd i

  pub create-Creates : (s : O.State) → Creates O opened owned s (epoll.create O s)
  unfolding epoll.create
  create-Creates s =
      new_or_errno-Conserves O opened D s _ (O.epoll_create1 s).0 (λ k. D.epoll_create1_opens s k)

  pub accept-Creates :
      (this : Socket) (s : O.State)
      → IsNamed (O.accept4 this.fd s).0
      → Creates O opened owned_pair s (accept O this s)
  unfolding accept
  accept-Creates this s i =
      accepted-Creates s _ (O.accept4 this.fd s).0 i (λ k. D.accept4_opens s k this.fd)
