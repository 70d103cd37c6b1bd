-- ===== src/Net/Epoll/Delivery.antt =====
-- Which events `Epoll::poll` delivers (bipolar/net/epoll.cpp).
use bipolar.Common.{◌⊎◌, inr, ℕ, ◌<◌, ◌≤◌, ◌≡◌, refl, ap, ltb, if◌then◌else◌, arith}
use bipolar.Core.Result.{ok}
use bipolar.Net.Epoll.{Events, resize, polled, poll}

module _ {Event : Type 0} (zero_event : Event)
    (epoll_wait : ℕ → ℕ → (ℕ → Event) → (ℕ ⊎ ℕ) × (ℕ → Event)) where
  -- If `epoll_wait` delivers n events, no more than the capacity, `poll` succeeds and the vector has n
  -- elements. Those at places that were elements before the call are the events delivered; all others
  -- are zero, whatever event was delivered there.
  pub poll-delivery :
      (timeout n : ℕ) (v : Events Event) (delivered : ℕ → Event)
      → epoll_wait v.capacity timeout v.cells ≡ (inr n, delivered)
      → n ≤ v.capacity
      → (v' : Events Event) × (poll zero_event epoll_wait timeout v ≡ (ok tt, v'))
        × (v'.size ≡ n)
        × ((i : ℕ) → i < n → v'.cells i ≡ (if ltb i v.size then delivered i else zero_event))
  unfolding poll resize
  poll-delivery timeout n v delivered e le = (
    resize zero_event n (record v { cells = delivered }),
    ap (polled zero_event epoll_wait v) e,
    refl,
    λ i lt. ground arith,
  )
