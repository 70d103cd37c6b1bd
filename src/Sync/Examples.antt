-- ===== src/Sync/Examples.antt =====
-- The theorems about bipolar/sync at concrete inputs.
use bipolar.Common.{ℕ, ◌^◌, ◌≡◌, refl, arith}
use bipolar.Core.Hash.Bounds.{Indexes}
use bipolar.Sync.SpinLockPool.{lock_for, lock_for-Indexes}
use bipolar.Sync.SpinLock.{SpinLock, new, holding, try_once, Reachable, here, next, attempt}
use bipolar.Sync.SpinLock.Exclusion.{mutual_exclusion}

abbrev third : ℕ
third = 3

-- Thread 3 has the lock.
abbrev taken : SpinLock
taken = try_once 3 new

taken-Reachable : Reachable taken
unfolding new
taken-Reachable = next here (attempt 3 refl)

taken_holding : taken.phase 3 ≡ holding
unfolding try_once new
taken_holding = refl

mutual_exclusion_example : (third ≡ third) × (taken.locked ≡ 1)
mutual_exclusion_example =
    mutual_exclusion taken third third taken-Reachable taken_holding taken_holding

lock_for-Indexes_example : Indexes 4 (lock_for (2 ^ 4) 140737488355328)
lock_for-Indexes_example = lock_for-Indexes 4 140737488355328 (omega arith)
