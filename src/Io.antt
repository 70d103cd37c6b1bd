-- ===== src/Io.antt =====
-- bipolar/io.
pub mod IoUring
mod Examples
