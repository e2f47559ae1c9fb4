-- ===== src/Tests.antt =====
-- Sample runs and the theorems at concrete inputs.
mod Tokens
mod Votes
mod Work
mod Access
mod Items
mod Payments
mod Addresses
mod Resets
mod Schemas
