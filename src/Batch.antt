-- ===== src/Batch.antt =====
-- internal/batch: batches of payments that are sent one after another.
pub mod Store
pub mod Totals
pub mod Manager
pub mod Sending
pub mod Sent
pub mod Ready
pub mod Once
pub mod Creating
