-- ===== src/Net/Examples/Polls.antt =====
-- The theorem about bipolar/net/epoll.cpp for a vector of one element and a capacity of ten, to which two
-- events are delivered: the second one is lost.
use bipolar.Common.{ℕ, ◌+◌, ◌<◌, ◌≡◌, ◌⊎◌, inr, refl, ltb, if◌then◌else◌, arith}
use bipolar.Core.Result.{ok}
use bipolar.Net.Epoll.{Events, poll}
use bipolar.Net.Epoll.Delivery.{poll-delivery}

abbrev two_events : ℕ → ℕ → (ℕ → ℕ) → (ℕ ⊎ ℕ) × (ℕ → ℕ)
two_events maximum timeout cells = (inr 2, λ i. i + 100)

abbrev one_element : Events ℕ
one_element = record { cells = λ i. 7; size = 1; capacity = 10 }

poll-delivery_example :
    (v' : Events ℕ) × (poll 0 two_events 50 one_element ≡ (ok tt, v'))
    × (v'.size ≡ 2)
    × ((i : ℕ) → i < 2 → v'.cells i ≡ (if ltb i 1 then i + 100 else 0))
poll-delivery_example =
    poll-delivery 0 two_events 50 2 one_element (λ i. i + 100) refl (omega arith)
