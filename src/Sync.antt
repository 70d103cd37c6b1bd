-- ===== src/Sync.antt =====
-- The modules of bipolar/sync.
pub mod SpinLock
pub mod SpinLockPool
mod Examples
