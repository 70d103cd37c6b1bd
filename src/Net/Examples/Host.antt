-- ===== src/Net/Examples/Host.antt =====
-- A small host for the examples: the table of its open descriptors, and the options of its sockets.
use bipolar.Common.{
  ℕ, zero, suc, ◌+◌, ◌≤◌, ◌≡◌, ◌≢◌, ◌==◌, if◌then◌else◌, Bool, true, false, none, some, List, [],
  ◌∷◌, arith, refl,
}
use bipolar.Net.Storage.{bytes}
use bipolar.Net.Native.{Sockaddr, sockaddr_in, size_in}
use bipolar.Net.Os.{Os, CInt, Linger, Level, OptionName, sol_socket, sol_tcp}
use bipolar.Net.Os.Descriptors.{owns, IsDescriptors}
use bipolar.Net.Tcp.Options.{IsOptions, IsLinger}

abbrev pub bit : List Bool → ℕ → ℕ
bit [] k = 0
bit (true ∷ bs) zero = 1
bit (false ∷ bs) zero = 0
bit (b ∷ bs) (suc k) = bit bs k

-- The lowest descriptor that is free, and the table with it.
abbrev free : List Bool → ℕ
free [] = 0
free (false ∷ bs) = 0
free (true ∷ bs) = suc (free bs)

abbrev taken : List Bool → List Bool
taken [] = true ∷ []
taken (false ∷ bs) = true ∷ bs
taken (true ∷ bs) = true ∷ taken bs

abbrev cleared : ℕ → List Bool → List Bool
cleared n [] = []
cleared zero (b ∷ bs) = false ∷ bs
cleared (suc n) (b ∷ bs) = b ∷ cleared n bs

bit_bound : (bs : List Bool) (k : ℕ) → bit bs k ≤ 1
bit_bound [] k = omega arith
bit_bound (true ∷ bs) zero = omega arith
bit_bound (false ∷ bs) zero = omega arith
bit_bound (true ∷ bs) (suc k) = bit_bound bs k
bit_bound (false ∷ bs) (suc k) = bit_bound bs k

owns-suc : (n k : ℕ) → owns (some (suc n)) (suc k) ≡ owns (some n) k
owns-suc n k = ground arith

bit-taken : (bs : List Bool) (k : ℕ) → bit (taken bs) k ≡ bit bs k + owns (some (free bs)) k
bit-taken [] zero = refl
bit-taken [] (suc k) = ground arith
bit-taken (false ∷ bs) zero = refl
bit-taken (false ∷ bs) (suc k) = ground arith
bit-taken (true ∷ bs) zero = ground arith
bit-taken (true ∷ bs) (suc k) = ground (arith, bit-taken bs k, owns-suc (free bs) k)

bit-cleared :
    (bs : List Bool) (k n : ℕ) → bit bs n ≡ 1 → bit (cleared n bs) k + owns (some n) k ≡ bit bs k
bit-cleared [] k n h = cc
bit-cleared (true ∷ bs) zero zero h = refl
bit-cleared (true ∷ bs) (suc k) zero h = ground arith
bit-cleared (true ∷ bs) zero (suc n) h = ground arith
bit-cleared (true ∷ bs) (suc k) (suc n) h = omega (arith, bit-cleared bs k n h, owns-suc n k)
bit-cleared (false ∷ bs) k zero h = cc
bit-cleared (false ∷ bs) zero (suc n) h = ground arith
bit-cleared (false ∷ bs) (suc k) (suc n) h = omega (arith, bit-cleared bs k n h, owns-suc n k)

pub record Host : Type 0 where
  pub table : List Bool
  pub linger : Linger
  pub socket_option : ℕ
  pub tcp_option : ℕ

abbrev opens : Host → CInt × Host
opens s = (some (free s.table), record s { table = taken s.table })

abbrev closes : CInt → Host → CInt × Host
closes none s = (none, s)
closes (some n) s = (some 0, record s { table = cleared n s.table })

-- The peer of every connection: 10.0.0.2, port 80.
abbrev pub peer : Sockaddr
peer = sockaddr_in (bytes 10 0 0 2) 20480

-- Connecting to port 0 is refused.
abbrev refused : Sockaddr → CInt
refused (sockaddr_in a port) = if port == 0 then none else some 0
refused _ = some 0

abbrev sets : Level → ℕ → Host → CInt × Host
sets sol_socket v s = (some 0, record s { socket_option = v })
sets sol_tcp v s = (some 0, record s { tcp_option = v })

abbrev option_value : Host → CInt → Level → OptionName → ℕ
option_value s fd sol_socket o = s.socket_option
option_value s fd sol_tcp o = s.tcp_option

abbrev pub host : Os
host = record {
  State = Host;
  Pointer = ℕ;
  TcpInfo = ℕ;
  errno = λ s. 111;
  einprogress = 115;
  einval = 22;
  socket = λ _ _ s. opens s;
  dup = λ _ s. opens s;
  close = closes;
  connect = λ _ addr _ s. (refused addr, s);
  bind = λ _ _ _ s. (some 0, s);
  listen = λ _ _ s. (some 0, s);
  accept4 = λ _ s. ((some (free s.table), peer, size_in), record s { table = taken s.table });
  getsockname = λ _ s. ((some 0, peer, size_in), s);
  getpeername = λ _ s. ((some 0, peer, size_in), s);
  set_int = λ _ l _ v s. sets l v s;
  set_linger = λ _ _ _ v s. (some 0, record s { linger = v });
  get_int = λ fd l o _ s. ((some 0, option_value s fd l o), s);
  get_linger = λ _ _ _ s. ((some 0, s.linger), s);
  get_tcp_info = λ _ _ _ s. ((some 0, 0), s);
  ioctl_fionbio = λ _ _ s. (some 0, s);
  shutdown = λ _ _ s. (some 0, s);
  send = λ _ _ n _ s. (some n, s);
  sendto = λ _ _ n _ _ _ s. (some n, s);
  writev = λ _ _ n s. (some n, s);
  sendmsg = λ _ _ _ s. (some 0, s);
  sendmmsg = λ _ _ n _ s. (some n, s);
  recv = λ _ _ n _ s. (some n, s);
  recvfrom = λ _ _ n _ s. ((some n, peer, size_in), s);
  readv = λ _ _ n s. (some n, s);
  recvmsg = λ _ _ _ s. (some 0, s);
  recvmmsg = λ _ _ n _ s. (some n, s);
  epoll_create1 = opens;
  epoll_ctl = λ _ _ _ _ s. (some 0, s);
}

abbrev pub host_opened : Host → ℕ → ℕ
host_opened s = bit s.table

sets_table : (l : Level) (v : ℕ) (s : Host) → (sets l v s).1.table ≡ s.table
sets_table sol_socket v s = refl
sets_table sol_tcp v s = refl

pub host-IsDescriptors : IsDescriptors host host_opened
host-IsDescriptors = record {
  once = λ s k. bit_bound s.table k;
  socket_opens = λ s k. bit-taken s.table k;
  epoll_create1_opens = λ s k. bit-taken s.table k;
  dup_opens = λ s k _. bit-taken s.table k;
  accept4_opens = λ s k _. bit-taken s.table k;
  close_closes = λ s k n h. bit-cleared s.table k n h;
  connect_keeps = λ _ _ _ _ _. refl;
  bind_keeps = λ _ _ _ _ _. refl;
  listen_keeps = λ _ _ _ _. refl;
  set_int_keeps = λ s k fd l o v. rw sets_table refl;
}

read_option :
    (s : Host) (fd : CInt) (l : Level) (o : OptionName) (v : ℕ)
    → (host.get_int fd l o 0 (sets l v s).1).0 ≡ (some 0, v)
read_option s fd sol_socket o v = refl
read_option s fd sol_tcp o v = refl

other_option :
    (s : Host) (fd : CInt) (l l' : Level) (o' : OptionName) (v : ℕ)
    → l ≢ l'
    → option_value (sets l v s).1 fd l' o' ≡ option_value s fd l' o'
other_option s fd sol_socket sol_socket o' v ne = absurd (ne refl)
other_option s fd sol_socket sol_tcp o' v ne = refl
other_option s fd sol_tcp sol_socket o' v ne = refl
other_option s fd sol_tcp sol_tcp o' v ne = absurd (ne refl)

host-IsOptions : IsOptions host option_value
host-IsOptions = record {
  reads = λ s fd l o v _. read_option s fd l o v;
  other_level = λ s fd l l' o o' v ne. other_option s fd l l' o' v ne;
}

pub host-IsLinger : IsLinger host
host-IsLinger = record {
  off = λ fd v s e done. (v.l_linger, ground arith);
  on = λ fd v s e pos done. (v.l_onoff, e, refl);
}
