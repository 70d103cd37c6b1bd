-- ===== src/Futures/Examples/Handles.antt =====
-- The theorem about the handles of suspended tasks (bipolar/futures/suspended_task.hpp) for two handles of
-- one resolver.
use bipolar.Common.{ℕ, true, some}
use bipolar.Futures.SuspendedTask.{SuspendedTask}
use bipolar.Futures.SuspendedTask.Ledger.{Accounts, operations-IsAccount}

abbrev same_ticket : ℕ → ℕ → ℕ
same_ticket r k = k

abbrev three : SuspendedTask
three = record { resolver = some 5; ticket = 3 }

abbrev four : SuspendedTask
four = record { resolver = some 5; ticket = 4 }

operations-IsAccount_example : Accounts same_ticket 5 3 three four true
operations-IsAccount_example = operations-IsAccount same_ticket 5 3 three four true
