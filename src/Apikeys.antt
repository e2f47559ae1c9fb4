-- ===== src/Apikeys.antt =====
-- internal/apikeys: keys that stand for a user, and the scopes that they are good for.
pub mod Text
pub mod Scopes
pub mod Roundtrip
pub mod Manager
pub mod Revoking
