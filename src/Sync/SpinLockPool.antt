-- ===== src/Sync/SpinLockPool.antt =====
-- bipolar/sync/spinlock_pool.hpp: `lock_for`. An address is its number, and a lock of the pool is its
-- index.
use bipolar.Common.{ℕ, ◌^◌, ◌<◌, Option}
use bipolar.Core.Hash.{fibhash}
use bipolar.Core.Hash.Bounds.{Indexes, fibhash-Indexes}

-- `none` if the index is undefined.
unfoldable pub lock_for : (pool_size : ℕ) → (p : ℕ) → Option ℕ
lock_for pool_size p = fibhash pool_size p

-- The lock for an address is one of the pool, whose size is a power of two, unless the size is 1. Then
-- the index is computed by an undefined shift.
pub lock_for-Indexes : (k p : ℕ) → k < 64 → Indexes k (lock_for (2 ^ k) p)
unfolding lock_for
lock_for-Indexes k p h = fibhash-Indexes k p h
