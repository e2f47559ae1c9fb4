-- ===== src/Multisig.antt =====
-- internal/multisig: wallets that several users sign for, and the proposals they vote on.
pub mod Store
pub mod Manager
pub mod Quorum
pub mod Upkeep
pub mod Calls
pub mod Lifecycle
pub mod Execution
pub mod Voting
pub mod Signers
