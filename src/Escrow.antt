-- ===== src/Escrow.antt =====
-- The escrow contract, src/lib.rs.
pub mod Types
pub mod Host
pub mod Stats
pub mod State
pub mod Balances
pub mod Signature
pub mod Admin
pub mod Wallet
pub mod Lifecycle
pub mod Submit
pub mod Consensus
pub mod Settle
pub mod Verdict
pub mod Compete
pub mod Cancel
pub mod Views
pub mod Invariant
pub mod Calls
