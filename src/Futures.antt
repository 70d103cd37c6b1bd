-- ===== src/Futures.antt =====
-- The modules of bipolar/futures.
pub mod Scheduler
pub mod Executor
pub mod SuspendedTask
pub mod PendingTask
pub mod Promise
mod Examples
