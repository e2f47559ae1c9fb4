-- ===== src/Nft.antt =====
-- internal/nft: collections, their items, and the market for them.
pub mod Store
pub mod Items
pub mod Market
pub mod Steps
pub mod Calls
pub mod Runs
pub mod Owners
pub mod Dead
pub mod Offers
pub mod Minting
