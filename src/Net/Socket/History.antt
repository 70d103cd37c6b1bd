-- ===== src/Net/Socket/History.antt =====
-- A program that uses sockets and `Epoll`: which descriptors it holds, and which its objects own, over any history
-- of creations, moves, copies, assignments, closes and destructions.
use bipolar.Common.{
  ℕ, zero, suc, ◌+◌, ◌≡◌, ◌≤◌, Option, none, some, List, [], ◌∷◌, ◌++◌, weigh, opt_list,
}
use bipolar.Core.Result.{Result, pending, ok, err}
use bipolar.Net.IpAddress.Comparison.{IsSound}
use bipolar.Net.SocketAddress.{SocketAddress}
use bipolar.Net.Os.{Os}
use bipolar.Net.Os.Descriptors.{owns}
use bipolar.Net.Socket.{Socket, of_fd, close, destroy, move, swap, assign, try_clone, into_fd}
use bipolar.Net.Socket.Ownership.{owned}
use bipolar.Net.Tcp.{connect}
use bipolar.Net.Tcp.Listener as listener
use bipolar.Net.Tcp.Listener.{accept}
use bipolar.Net.Udp as udp
use bipolar.Net.Epoll.Control as epoll

-- The sockets and the `Epoll` objects of the program, in any order, and the descriptors that it holds outside them.
pub record World (S : Type 0) : Type 0 where
  pub state : S
  pub raw : List ℕ
  pub objects : List Socket

-- What the program does next, with its first object, or its first two. `pick` brings the object of that
-- number to the front, `adopt` constructs an object from the first descriptor outside of objects, and
-- `other_call` is any system call.
pub data Command (S : Type 0) : Type 0 where
  connect_to listen_at bind_at : SocketAddress → Command S
  create_epoll accept_one clone_it close_it destroy_it move_it assign_next swap_next release adopt :
      Command S
  pick : ℕ → Command S
  other_call : (S → S) → Command S

abbrev pub in_front : Socket → List Socket → List Socket
in_front x [] = x ∷ []
in_front x (y ∷ ys) = y ∷ x ∷ ys

abbrev pub picked : ℕ → List Socket → List Socket
picked zero xs = xs
picked (suc n) [] = []
picked (suc n) (x ∷ xs) = in_front x (picked n xs)

-- A new object.
abbrev pub added : Result Socket ℕ → List Socket → List Socket
added (ok x) xs = x ∷ xs
added pending xs = xs
added (err e) xs = xs

abbrev pub added_pair : {A : Type 0} → Result (Socket × A) ℕ → List Socket → List Socket
added_pair (ok (x, _)) xs = x ∷ xs
added_pair pending xs = xs
added_pair (err e) xs = xs

module _ {S : Type 0} where
  -- The objects after a call, from its result.
  abbrev pub changed : {A : Type 0} → List ℕ → (A → List Socket) → Option (A × S) → Option (World S)
  changed raw f none = none
  changed raw f (some (a, s)) = some (record { state = s; raw = raw; objects = f a })

module _ (O : Os) where
  abbrev pub with_first :
      Command O.State → O.State → List ℕ → Socket → List Socket → Option (World O.State)
  with_first accept_one s raw x xs = changed raw (λ r. added_pair r (x ∷ xs)) (accept O x s)
  with_first clone_it s raw x xs = changed raw (λ r. added r (x ∷ xs)) (try_clone O x s)
  with_first close_it s raw x xs = changed raw (λ r. r.1 ∷ xs) (close O x s)
  with_first destroy_it s raw x xs = changed raw (λ _. xs) (destroy O x s)
  with_first move_it s raw x xs =
      some (record { state = s; raw = raw; objects = (move x).0 ∷ (move x).1 ∷ xs })
  with_first release s raw x xs =
      some (record { state = s; raw = opt_list (into_fd x).0 ++ raw; objects = (into_fd x).1 ∷ xs })
  with_first assign_next s raw x (y ∷ xs) = changed raw (λ r. r.0 ∷ r.1 ∷ xs) (assign O x y s)
  with_first swap_next s raw x (y ∷ xs) =
      some (record { state = s; raw = raw; objects = (swap x y).0 ∷ (swap x y).1 ∷ xs })
  with_first _ s raw x xs = some (record { state = s; raw = raw; objects = x ∷ xs })

  -- The commands on an object do nothing without one.
  abbrev pub on_objects : Command O.State → O.State → List ℕ → List Socket → Option (World O.State)
  on_objects c s raw [] = some (record { state = s; raw = raw; objects = [] })
  on_objects c s raw (x ∷ xs) = with_first c s raw x xs

  abbrev pub adopted : O.State → List ℕ → List Socket → World O.State
  adopted s [] xs = record { state = s; raw = []; objects = xs }
  adopted s (n ∷ raw) xs = record { state = s; raw = raw; objects = of_fd (some n) ∷ xs }

  abbrev pub perform : Command O.State → World O.State → Option (World O.State)
  perform (connect_to sa) w = changed w.raw (λ r. added r w.objects) (connect O sa w.state)
  perform (listen_at sa) w = changed w.raw (λ r. added r w.objects) (listener.bind O sa w.state)
  perform (bind_at sa) w = changed w.raw (λ r. added r w.objects) (udp.bind O sa w.state)
  perform create_epoll w = changed w.raw (λ r. added r w.objects) (epoll.create O w.state)
  perform adopt w = some (adopted w.state w.raw w.objects)
  perform (pick n) w = some (record w { objects = picked n w.objects })
  perform (other_call f) w = some (record w { state = f w.state })
  perform c w = on_objects c w.state w.raw w.objects

  abbrev pub performed :
      (World O.State → Option (World O.State)) → Option (World O.State) → Option (World O.State)
  performed f none = none
  performed f (some w) = f w

  unfoldable pub run : List (Command O.State) → World O.State → Option (World O.State)
  run [] w = some w
  run (c ∷ cs) w = performed (run cs) (perform c w)

module _ (O : Os) (opened : O.State → ℕ → ℕ) where
  -- Exactly the descriptors that are open are held, each once, by one object or outside of objects.
  abbrev pub IsBalanced : World O.State → Type 0
  IsBalanced w =
      (k : ℕ)
      → opened w.state k ≡ weigh (λ n. owns (some n) k) w.raw + weigh (λ x. owned x k) w.objects

  -- The program has not ended, and its world is balanced.
  abbrev pub Balanced : Option (World O.State) → Type 0
  Balanced none = ⊥
  Balanced (some w) = IsBalanced w

  -- And no descriptor is held twice.
  abbrev pub Exclusive : Option (World O.State) → Type 0
  Exclusive none = ⊥
  Exclusive (some w) =
      IsBalanced w
      × ((k : ℕ) → weigh (λ n. owns (some n) k) w.raw + weigh (λ x. owned x k) w.objects ≤ 1)

  -- Addresses are proper, and the other calls open and close nothing.
  abbrev pub IsProper : Command O.State → Type 0
  IsProper (connect_to sa) = IsSound sa.addr
  IsProper (listen_at sa) = IsSound sa.addr
  IsProper (bind_at sa) = IsSound sa.addr
  IsProper (other_call f) = (s : O.State) (k : ℕ) → opened (f s) k ≡ opened s k
  IsProper _ = Unit
