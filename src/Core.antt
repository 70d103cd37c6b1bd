-- ===== src/Core.antt =====
-- The modules of bipolar/core.
pub mod Result
pub mod Option
pub mod Byteorder
pub mod Function
pub mod FunctionRef
pub mod Hash
pub mod ScopeGuard
mod Examples
