-- ===== src/Net/Epoll.antt =====
-- `Epoll::poll` (bipolar/net/epoll.cpp) and the vector that it fills. `epoll_wait` is a parameter.
pub mod Delivery
pub mod Control
use bipolar.Common.{◌⊎◌, inl, inr, ℕ, ltb, leb, if◌then◌else◌, ◌&&◌}
use bipolar.Core.Result.{Result, ok, err}

-- `std::vector`: its elements are the first `size` of the `capacity` cells of its storage.
pub record Events (Event : Type 0) : Type 0 where
  pub cells : ℕ → Event
  pub size : ℕ
  pub capacity : ℕ

module _ {Event : Type 0} (zero_event : Event) where
  -- `resize` within the capacity: new elements are value-initialized.
  unfoldable pub resize : ℕ → Events Event → Events Event
  resize n v = record v {
    cells = λ i. if leb v.size i && ltb i n then zero_event else v.cells i;
    size = n;
  }

  -- `epoll_wait` for so many events at most, with the timeout: `errno` or the number of events, and the
  -- cells as it leaves them.
  module _ (epoll_wait : ℕ → ℕ → (ℕ → Event) → (ℕ ⊎ ℕ) × (ℕ → Event)) where
    abbrev pub polled : Events Event → (ℕ ⊎ ℕ) × (ℕ → Event) → Result (Unit {0}) ℕ × Events Event
    polled v (inl e, cells) = (err e, record v { cells = cells })
    polled v (inr n, cells) = (ok tt, resize n (record v { cells = cells }))

    unfoldable pub poll : ℕ → Events Event → Result (Unit {0}) ℕ × Events Event
    unfolding resize
    poll timeout v = polled v (epoll_wait v.capacity timeout v.cells)
