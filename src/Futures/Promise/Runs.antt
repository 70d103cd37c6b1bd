-- ===== src/Futures/Promise/Runs.antt =====
-- Promises run to their end (bipolar/futures/promise.hpp): what the executor sees that calls a
-- continuation until its result is not pending.
pub mod Chaining
pub mod Wrapping
pub mod Combinators
pub mod Handlers
pub mod Observers
use bipolar.Common.{◌≡◌, Bool, false, Option}
use bipolar.Common.Outcome.{returns}
use bipolar.Core.Result.{Result, pending, is_pending}
use bipolar.Futures.Promise.{Continuation}

-- Called from the state `s` and the context `c` on, the continuation ends with the result `r` in the
-- context `c'`. Between two calls the rest of the program may change the context in any way.
pub data Runs {C S T E : Type 0} (run : Continuation C S T E) (r : Result T E) (c' : C)
    : S → C → Type 0 where
  ends :
      {s s' : S} {c : C} → run s c ≡ returns (r, s', c') → is_pending r ≡ false → Runs run r c' s c
  waits :
      {s s' : S} {c c1 : C}
      → run s c ≡ returns (pending, s', c1)
      → (c2 : C) → Runs run r c' s' c2
      → Runs run r c' s c
