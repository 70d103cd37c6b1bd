-- ===== src/Net/Socket/Exclusive.antt =====
-- Over every history, descriptors are neither lost nor closed while another object has them.
use bipolar.Common.{
  ℕ, zero, suc, ◌+◌, ◌≡◌, Option, none, some, List, [], ◌∷◌, ◌++◌, All, weigh, opt_list, arith,
  refl,
}
use bipolar.Core.Result.{Result, pending, ok, err}
use bipolar.Net.Native.RoundTrip.{native_addr_to_socket_address-to_sockaddr}
use bipolar.Net.Os.{Os, CInt}
use bipolar.Net.Os.Descriptors.{owns, owned_by, IsNamed, IsDescriptors, Conserves, Held}
use bipolar.Net.Socket.{Socket, of_fd, move, swap, into_fd}
use bipolar.Net.Socket.Ownership.{
  owned, owned_pair, try_clone-Conserves, close-Conserves, destroy-Conserves, assign-Conserves,
}
use bipolar.Net.Socket.Creation.{
  Creates, create-Creates, connect-Creates, bind-Creates, udp_bind-Creates, accept-Creates,
}
use bipolar.Net.Socket.History.{
  World, Command, create_epoll, connect_to, listen_at, bind_at, accept_one, clone_it, close_it,
  destroy_it, move_it, assign_next, swap_next, release, adopt, pick, other_call, in_front, picked,
  added, added_pair, changed, with_first, on_objects, adopted, perform, performed, run, IsBalanced,
  Balanced, Exclusive, IsProper,
}

-- What a list of objects owns, and a list of descriptors.
abbrev all_owned : List Socket → ℕ → ℕ
all_owned xs k = weigh (λ x. owned x k) xs

abbrev all_raw : List ℕ → ℕ → ℕ
all_raw raw k = weigh (λ n. owns (some n) k) raw

in_front-owned :
    (x : Socket) (xs : List Socket) (k : ℕ)
    → all_owned (in_front x xs) k ≡ owned x k + all_owned xs k
in_front-owned x [] k = refl
in_front-owned x (y ∷ xs) k = omega arith

picked-owned : (n : ℕ) (xs : List Socket) (k : ℕ) → all_owned (picked n xs) k ≡ all_owned xs k
picked-owned zero xs k = refl
picked-owned (suc n) [] k = refl
picked-owned (suc n) (x ∷ xs) k =
    omega (arith, in_front-owned x (picked n xs) k, picked-owned n xs k)

module _ (O : Os) (opened : O.State → ℕ → ℕ) (D : IsDescriptors O opened) where
  -- A call in a balanced world.
  changed-Balanced :
      {A : Type 0} (s : O.State) (raw : List ℕ) (before others : ℕ → ℕ) (after : A → ℕ → ℕ)
      (f : A → List Socket) (m : Option (A × O.State))
      → Conserves O opened s before after m
      → ((k : ℕ) → opened s k ≡ all_raw raw k + (before k + others k))
      → ((a : A) (k : ℕ) → all_owned (f a) k ≡ after a k + others k)
      → Balanced O opened (changed raw f m)
  changed-Balanced s raw before others after f none c b e = c
  changed-Balanced s raw before others after f (some (a, s')) c b e =
      λ k. omega (arith, c k, b k, e a k)

  added-owned :
      (xs : List Socket) (r : Result Socket ℕ) (k : ℕ)
      → all_owned (added r xs) k ≡ owned_by owned r k + all_owned xs k
  added-owned xs pending k = omega arith
  added-owned xs (ok x) k = omega arith
  added-owned xs (err e) k = omega arith

  added_pair-owned :
      {A : Type 0} (xs : List Socket) (r : Result (Socket × A) ℕ) (k : ℕ)
      → all_owned (added_pair r xs) k ≡ owned_by owned_pair r k + all_owned xs k
  added_pair-owned xs pending k = omega arith
  added_pair-owned xs (ok x) k = omega arith
  added_pair-owned xs (err e) k = omega arith

  -- In a balanced world what an object has is open.
  held :
      (s : O.State) (x : Socket) (others : ℕ → ℕ)
      → ((k : ℕ) → opened s k ≡ owned x k + others k)
      → Held O opened s x.fd
  held s x others h = go x.fd h
    where
      go : (fd : CInt) → ((k : ℕ) → opened s k ≡ owns fd k + others k) → Held O opened s fd
      go none h = tt
      go (some n) h = ground (arith, h n, D.once s n)

  released :
      (s : O.State) (raw : List ℕ) (fd : CInt) (xs : List Socket)
      → IsBalanced O opened (record { state = s; raw = raw; objects = of_fd fd ∷ xs })
      → IsBalanced O opened
          (record { state = s; raw = opt_list fd ++ raw; objects = of_fd none ∷ xs })
  released s raw none xs b = b
  released s raw (some n) xs b = λ k. omega (arith, b k)

  performed-Balanced :
      (f : World O.State → Option (World O.State)) (o : Option (World O.State))
      → Balanced O opened o
      → ((w : World O.State) → IsBalanced O opened w → Balanced O opened (f w))
      → Balanced O opened (performed O f o)
  performed-Balanced f none b h = b
  performed-Balanced f (some w) b h = h w b

  module _ (named : (s : O.State) (fd : CInt) → IsNamed (O.accept4 fd s).0) where
    with_first-Balanced :
        (c : Command O.State) (s : O.State) (raw : List ℕ) (x : Socket) (xs : List Socket)
        → IsBalanced O opened (record { state = s; raw = raw; objects = x ∷ xs })
        → Balanced O opened (with_first O c s raw x xs)
    unfolding move swap into_fd
    with_first-Balanced accept_one s raw x xs b =
        changed-Balanced s raw _ (all_owned (x ∷ xs)) _ _ _
          (accept-Creates O opened D x s (named s x.fd)) (λ k. omega (arith, b k))
          (added_pair-owned (x ∷ xs))
    with_first-Balanced clone_it s raw x xs b =
        changed-Balanced s raw _ (all_owned (x ∷ xs)) _ _ _ (try_clone-Conserves O opened D x s)
          (λ k. omega (arith, b k)) (added-owned (x ∷ xs))
    with_first-Balanced close_it s raw x xs b =
        changed-Balanced s raw _ (all_owned xs) _ _ _
          (close-Conserves O opened D x s
            (held s x (λ k. all_raw raw k + all_owned xs k) (λ k. omega (arith, b k))))
          b (λ a k. refl)
    with_first-Balanced destroy_it s raw x xs b =
        changed-Balanced s raw _ (all_owned xs) _ _ _
          (destroy-Conserves O opened D x s
            (held s x (λ k. all_raw raw k + all_owned xs k) (λ k. omega (arith, b k))))
          b (λ a k. omega arith)
    with_first-Balanced move_it s raw x xs b = λ k. omega (arith, b k)
    with_first-Balanced release s raw x xs b = released s raw x.fd xs b
    with_first-Balanced assign_next s raw x [] b = b
    with_first-Balanced assign_next s raw x (y ∷ xs) b =
        changed-Balanced s raw _ (all_owned xs) _ _ _
          (assign-Conserves O opened D x y s
            (held s x (λ k. all_raw raw k + all_owned (y ∷ xs) k) (λ k. omega (arith, b k))))
          (λ k. omega (arith, b k)) (λ a k. omega arith)
    with_first-Balanced swap_next s raw x [] b = b
    with_first-Balanced swap_next s raw x (y ∷ xs) b = λ k. omega (arith, b k)
    with_first-Balanced create_epoll s raw x xs b = b
    with_first-Balanced (connect_to _) s raw x xs b = b
    with_first-Balanced (listen_at _) s raw x xs b = b
    with_first-Balanced (bind_at _) s raw x xs b = b
    with_first-Balanced adopt s raw x xs b = b
    with_first-Balanced (pick _) s raw x xs b = b
    with_first-Balanced (other_call _) s raw x xs b = b

    created :
        (s : O.State) (raw : List ℕ) (xs : List Socket) (m : Option (Result Socket ℕ × O.State))
        → IsBalanced O opened (record { state = s; raw = raw; objects = xs })
        → Creates O opened owned s m
        → Balanced O opened (changed raw (λ r. added r xs) m)
    created s raw xs m b c =
        changed-Balanced s raw (λ _. 0) (all_owned xs) _ _ m c (λ k. omega (arith, b k))
          (added-owned xs)

    adopted-Balanced :
        (s : O.State) (raw : List ℕ) (xs : List Socket)
        → IsBalanced O opened (record { state = s; raw = raw; objects = xs })
        → IsBalanced O opened (adopted O s raw xs)
    adopted-Balanced s [] xs b = b
    adopted-Balanced s (n ∷ raw) xs b = λ k. omega (arith, b k)

    on_objects-Balanced :
        (c : Command O.State) (s : O.State) (raw : List ℕ) (xs : List Socket)
        → IsBalanced O opened (record { state = s; raw = raw; objects = xs })
        → Balanced O opened (on_objects O c s raw xs)
    on_objects-Balanced c s raw [] b = b
    on_objects-Balanced c s raw (x ∷ xs) b = with_first-Balanced c s raw x xs b

    perform-Balanced :
        (c : Command O.State) (w : World O.State)
        → IsProper O opened c
        → IsBalanced O opened w
        → Balanced O opened (perform O c w)
    perform-Balanced (connect_to sa) w p b =
        let (n, e, _) = native_addr_to_socket_address-to_sockaddr O.einval sa p in
        created w.state w.raw w.objects _ b (connect-Creates O opened D sa n e w.state)
    perform-Balanced (listen_at sa) w p b =
        let (n, e, _) = native_addr_to_socket_address-to_sockaddr O.einval sa p in
        created w.state w.raw w.objects _ b (bind-Creates O opened D sa n e w.state)
    perform-Balanced (bind_at sa) w p b =
        let (n, e, _) = native_addr_to_socket_address-to_sockaddr O.einval sa p in
        created w.state w.raw w.objects _ b (udp_bind-Creates O opened D sa n e w.state)
    perform-Balanced create_epoll w p b =
        created w.state w.raw w.objects _ b (create-Creates O opened D w.state)
    perform-Balanced adopt w p b = adopted-Balanced w.state w.raw w.objects b
    perform-Balanced (pick n) w p b = λ k. omega (arith, b k, picked-owned n w.objects k)
    perform-Balanced (other_call f) w p b = λ k. omega (arith, b k, p w.state k)
    perform-Balanced accept_one w p b = on_objects-Balanced accept_one w.state w.raw w.objects b
    perform-Balanced clone_it w p b = on_objects-Balanced clone_it w.state w.raw w.objects b
    perform-Balanced close_it w p b = on_objects-Balanced close_it w.state w.raw w.objects b
    perform-Balanced destroy_it w p b = on_objects-Balanced destroy_it w.state w.raw w.objects b
    perform-Balanced move_it w p b = on_objects-Balanced move_it w.state w.raw w.objects b
    perform-Balanced assign_next w p b = on_objects-Balanced assign_next w.state w.raw w.objects b
    perform-Balanced swap_next w p b = on_objects-Balanced swap_next w.state w.raw w.objects b
    perform-Balanced release w p b = on_objects-Balanced release w.state w.raw w.objects b

    run-Balanced :
        (cs : List (Command O.State)) (w : World O.State)
        → All (IsProper O opened) cs
        → IsBalanced O opened w
        → Balanced O opened (run O cs w)
    unfolding run
    run-Balanced [] w p b = b
    run-Balanced (c ∷ cs) w p b =
        performed-Balanced (run O cs) _ (perform-Balanced c w p.0 b) (λ w'. run-Balanced cs w' p.1)

    exclusive : (o : Option (World O.State)) → Balanced O opened o → Exclusive O opened o
    exclusive none b = b
    exclusive (some w) b = (b, λ k. omega (arith, b k, D.once w.state k))

    -- In any history that starts from a balanced world, with proper addresses, where the connections
    -- that are accepted are named by addresses of the two families and other calls open and close
    -- nothing, the program does not end, and then the open descriptors are those that it holds, each in
    -- one object or outside of objects: none is lost, and none is closed while another object has it.
    pub run-IsBalanced :
        (cs : List (Command O.State)) (w : World O.State)
        → All (IsProper O opened) cs
        → IsBalanced O opened w
        → Exclusive O opened (run O cs w)
    run-IsBalanced cs w p b = exclusive (run O cs w) (run-Balanced cs w p b)
