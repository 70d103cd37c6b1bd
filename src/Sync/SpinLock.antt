-- ===== src/Sync/SpinLock.antt =====
-- bipolar/sync/spinlock.hpp: `SpinLock` as used by any number of threads, numbered from 0. A step is
-- one atomic access to `locked_` by one thread. Accesses are taken to be sequentially consistent; the
-- pauses of the backoff touch no shared state and are left out.
pub mod Exclusion
use bipolar.Common.{ℕ, ◌≡◌, Bool, true, false, ◌==◌, if◌then◌else◌}

-- Where a thread is: outside, before the `try_lock` in the loop of `lock`, in the inner loop, or
-- between its acquisition and its `unlock`.
pub data Phase : Type 0 where
  outside trying spinning holding : Phase

pub record SpinLock : Type 0 where
  pub locked : ℕ
  pub phase : ℕ → Phase

abbrev pub set : (ℕ → Phase) → ℕ → Phase → ℕ → Phase
set f t p u = if u == t then p else f u

-- The constructor.
unfoldable pub new : SpinLock
new = record { locked = 0; phase = λ t. outside }

-- `locked_.exchange(1) == 0`, and the new value of `locked_`.
unfoldable pub try_lock : ℕ → Bool × ℕ
try_lock locked = (locked == 0, 1)

-- A call of `try_lock` from outside.
unfoldable pub try_once : ℕ → SpinLock → SpinLock
unfolding try_lock
try_once t s =
    let (acquired, locked') = try_lock s.locked in
    record { locked = locked'; phase = set s.phase t (if acquired then holding else outside) }

-- The `try_lock` in the loop of `lock`.
unfoldable pub try_in_loop : ℕ → SpinLock → SpinLock
unfolding try_lock
try_in_loop t s =
    let (acquired, locked') = try_lock s.locked in
    record { locked = locked'; phase = set s.phase t (if acquired then holding else spinning) }

-- The load at the end of the inner loop.
unfoldable pub look : ℕ → SpinLock → SpinLock
look t s = record s { phase = set s.phase t (if s.locked == 0 then trying else spinning) }

unfoldable pub unlock : ℕ → SpinLock → SpinLock
unlock t s = record { locked = 0; phase = set s.phase t outside }

-- The steps of the threads; only a thread that holds the lock releases it.
pub data Step : SpinLock → SpinLock → Type 0 where
  enter :
      {s : SpinLock} (t : ℕ)
      → s.phase t ≡ outside
      → Step s (record s { phase = set s.phase t trying })
  attempt : {s : SpinLock} (t : ℕ) → s.phase t ≡ outside → Step s (try_once t s)
  exchange : {s : SpinLock} (t : ℕ) → s.phase t ≡ trying → Step s (try_in_loop t s)
  load : {s : SpinLock} (t : ℕ) → s.phase t ≡ spinning → Step s (look t s)
  release : {s : SpinLock} (t : ℕ) → s.phase t ≡ holding → Step s (unlock t s)

pub data Reachable : SpinLock → Type 0 where
  here : Reachable new
  next : {s s' : SpinLock} → Reachable s → Step s s' → Reachable s'
