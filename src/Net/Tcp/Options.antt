-- ===== src/Net/Tcp/Options.antt =====
-- The options of `TcpStream` that are set and read back.
use bipolar.Common.{
  ℕ, ◌^◌, ◌<◌, ◌≡◌, ◌≢◌, ◌↔◌, Bool, true, false, Option, none, some, u32, arith, refl, ap, sym,
  subst,
}
use bipolar.Core.Result.{Result, ok}
use bipolar.Net.Os.{
  Os, CInt, Linger, Level, OptionName, sol_socket, sol_tcp, tcp_nodelay, so_linger, ok_or_errno,
  continued,
}
use bipolar.Net.Tcp.{
  TcpStream, set_nodelay, nodelay, set_linger, linger, linger_opt, of_linger_opt, seconds, to_int,
  to_bool,
}

-- The call returns this value.
abbrev pub Answers : {S A : Type 0} → A → Option (Result A ℕ × S) → Type 0
Answers a none = ⊥
Answers a (some (r, s)) = r ≡ ok a

-- A number of seconds that an `int` can hold.
abbrev pub Fits : Option ℕ → Type 0
Fits none = Unit
Fits (some c) = c < 2 ^ 31

-- A count of 64 bits.
abbrev pub IsCount : Option ℕ → Type 0
IsCount none = Unit
IsCount (some c) = c < 2 ^ 64

-- Cast to an `int`, it is not negative.
abbrev pub IsNonNegative : Option ℕ → Type 0
IsNonNegative none = Unit
IsNonNegative (some c) = u32 c < 2 ^ 31

seconds_iff : (c : ℕ) → c < 2 ^ 64 → u32 c < 2 ^ 31 → (seconds (u32 c) ≡ c) ↔ Fits (some c)
unfolding seconds
seconds_iff c h pos = ground arith

of_linger_opt-linger_opt :
    (o : Option ℕ) → IsCount o → IsNonNegative o → (of_linger_opt (linger_opt o) ≡ o) ↔ Fits o
unfolding of_linger_opt
of_linger_opt-linger_opt none h p = ((λ _. tt), λ _. refl)
of_linger_opt-linger_opt (some c) h p =
    ((λ e. (seconds_iff c h p).0 cc), λ i. ap some ((seconds_iff c h p).1 i))

still_on :
    (n l : ℕ)
    → n ≢ 0
    → of_linger_opt (record { l_onoff = n; l_linger = l })
      ≡ of_linger_opt (record { l_onoff = 1; l_linger = l })
unfolding of_linger_opt
still_on n l on = ground arith

to_bool-to_int : (b : Bool) → to_bool (to_int b) ≡ b
to_bool-to_int true = refl
to_bool-to_int false = refl

-- A call that returns one value.
unique_answer :
    {S A : Type 0} (a b : A) (m : Option (Result A ℕ × S)) → Answers a m → Answers b m ↔ (a ≡ b)
unique_answer a b none h = absurd h
unique_answer a b (some (r, s)) h = ((λ e. cc), λ e. cc)

module _ (O : Os) where
  -- A call that sets an option, and after it one that reads it.
  read_back :
      {A : Type 0} (a : A) (ret : CInt) (s : O.State) (f : O.State → Option (Result A ℕ × O.State))
      → (ret ≢ none → Answers a (f s))
      → Answers tt (ok_or_errno O tt ret s)
      → Answers a (continued (λ _. f) (ok_or_errno O tt ret s))
  read_back a none s f h set = cc
  read_back a (some n) s f h set = h (λ e. cc)

  -- What is read, from what the call gave.
  got_option :
      {A B : Type 0} (f : B → A) (b : B) (got : CInt × B) (s : O.State)
      → got ≡ (some 0, b)
      → Answers (f b) (ok_or_errno O (f got.1) got.0 s)
  got_option f b got s e = subst (λ g. Answers (f b) (ok_or_errno O (f g.1) g.0 s)) (sym e) refl

  -- The documented behaviour of `SO_LINGER`: after a successful `setsockopt` on a descriptor,
  -- `getsockopt` gives whether lingering is on and, if it is, for a number of seconds that is not
  -- negative, this number.
  pub record IsLinger : Type 0 where
    pub off :
        (fd : CInt) (v : Linger) (s : O.State)
        → v.l_onoff ≡ 0
        → (O.set_linger fd sol_socket so_linger v s).0 ≢ none
        → (n : ℕ) × ((O.get_linger fd sol_socket so_linger
              (O.set_linger fd sol_socket so_linger v s).1).0
            ≡ (some 0, record { l_onoff = 0; l_linger = n }))
    pub on :
        (fd : CInt) (v : Linger) (s : O.State)
        → v.l_onoff ≢ 0
        → v.l_linger < 2 ^ 31
        → (O.set_linger fd sol_socket so_linger v s).0 ≢ none
        → (n : ℕ) × (n ≢ 0)
          × ((O.get_linger fd sol_socket so_linger (O.set_linger fd sol_socket so_linger v s).1).0
              ≡ (some 0, record { l_onoff = n; l_linger = v.l_linger }))

  -- What `linger` makes of the structure.
  reads_back :
      (this : TcpStream) (o : Option ℕ) (s : O.State)
      → IsLinger
      → IsNonNegative o
      → Answers tt (set_linger O this o s)
      → Answers
          (of_linger_opt (linger_opt o))
          (continued (λ _. linger O this) (set_linger O this o s))
  unfolding set_linger linger of_linger_opt
  reads_back this none s opts pos set =
      read_back _ _ _ (linger O this)
        (λ done.
          let (n, e) = opts.off this.fd (linger_opt none) s refl done in
          got_option of_linger_opt (record { l_onoff = 0; l_linger = n }) _ _ e)
        set
  reads_back this (some c) s opts pos set =
      read_back _ _ _ (linger O this)
        (λ done.
          let (n, on, e) = opts.on this.fd (linger_opt (some c)) s (ground arith) pos done in
          subst
            (λ o.
              Answers o (
                linger O this
                  (O.set_linger this.fd sol_socket so_linger (linger_opt (some c)) s).1))
            (still_on n (u32 c) on)
            (got_option of_linger_opt (record { l_onoff = n; l_linger = u32 c }) _ _ e))
        set

  -- Let the number of seconds be one that is not negative as an `int`. If `set_linger` succeeds, then
  -- `linger` gives the same duration exactly if it is none or its count of seconds fits into an `int`.
  pub linger_iff :
      (this : TcpStream) (o : Option ℕ) (s : O.State)
      → IsLinger
      → IsCount o
      → IsNonNegative o
      → Answers tt (set_linger O this o s)
      → Answers o (continued (λ _. linger O this) (set_linger O this o s)) ↔ Fits o
  linger_iff this o s opts count pos set =
      let (one, two) =
        unique_answer (of_linger_opt (linger_opt o)) o _ (reads_back this o s opts pos set) in
      let (from, to) = of_linger_opt-linger_opt o count pos in
      ((λ a. from (one a)), λ i. two (to i))

  -- The value of each option, at each level, of a descriptor: `getsockopt` reads it, and `setsockopt`
  -- changes one of one level if it succeeds, and else none.
  pub record IsOptions (value : O.State → CInt → Level → OptionName → ℕ) : Type 0 where
    pub reads :
        (s : O.State) (fd : CInt) (l : Level) (o : OptionName) (v : ℕ)
        → (O.set_int fd l o v s).0 ≢ none
        → (O.get_int fd l o 0 (O.set_int fd l o v s).1).0 ≡ (some 0, v)
    pub other_level :
        (s : O.State) (fd : CInt) (l l' : Level) (o o' : OptionName) (v : ℕ)
        → l ≢ l'
        → value (O.set_int fd l o v s).1 fd l' o' ≡ value s fd l' o'

  -- A property of the state that a call leaves.
  abbrev Leaves : {A : Type 0} → (O.State → Type 0) → Option (A × O.State) → Type 0
  Leaves P none = ⊥
  Leaves P (some (r, s)) = P s

  Leaves-set :
      (P : O.State → Type 0) (ret : CInt) (s : O.State) → P s → Leaves P (ok_or_errno O tt ret s)
  Leaves-set P none s p = p
  Leaves-set P (some n) s p = p

  -- `nodelay` gives the flag that a successful `set_nodelay` set, but no call of `set_nodelay` changes
  -- an option of TCP: it sets the option with the number of `TCP_NODELAY` at the level of the socket.
  set_nodelay_level :
      (value : O.State → CInt → Level → OptionName → ℕ) (this : TcpStream) (enable : Bool)
      (s : O.State)
      → IsOptions value
      → Answers tt (set_nodelay O this enable s)
      → Answers enable (continued (λ _. nodelay O this) (set_nodelay O this enable s))
        × Leaves
            (λ s'. value s' this.fd sol_tcp tcp_nodelay ≡ value s this.fd sol_tcp tcp_nodelay)
            (set_nodelay O this enable s)
  unfolding set_nodelay nodelay
  set_nodelay_level value this enable s opts set = (
    read_back _ _ _ (nodelay O this)
        (λ done.
          subst
            (λ b.
              Answers b
                (nodelay O this (O.set_int this.fd sol_socket tcp_nodelay (to_int enable) s).1))
            (to_bool-to_int enable)
            (got_option to_bool (to_int enable) _ _
              (opts.reads s this.fd sol_socket tcp_nodelay _ done)))
        set,
    Leaves-set (λ s'. value s' this.fd sol_tcp tcp_nodelay ≡ value s this.fd sol_tcp tcp_nodelay)
        (O.set_int this.fd sol_socket tcp_nodelay (to_int enable) s).0
        (O.set_int this.fd sol_socket tcp_nodelay (to_int enable) s).1
        (opts.other_level s this.fd sol_socket sol_tcp tcp_nodelay tcp_nodelay (to_int enable)
          (λ e. cc)),
  )
