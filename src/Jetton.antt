-- ===== src/Jetton.antt =====
-- internal/jetton: fungible tokens kept in SQL tables. `Decimal` is math/big's reading and writing of
-- numbers, `Store` the tables; the methods of `Manager` are in `Lookup`, `Admin` and `Tokens`, and the
-- other modules are about them.
pub mod Decimal
pub mod Store
pub mod Lookup
pub mod Admin
pub mod Tokens
pub mod Wallets
pub mod Opening
pub mod Writes
pub mod Reads
pub mod Transfers
pub mod Supply
pub mod Minting
pub mod Drafts
