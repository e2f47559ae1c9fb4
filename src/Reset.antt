-- ===== src/Reset.antt =====
-- internal/reset: tokens for a new password.
pub mod Manager
pub mod Once
pub mod Writing
pub mod Requests
