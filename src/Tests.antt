-- ===== src/Tests.antt =====
-- Concrete inputs, and the theorems applied to them.
pub mod Fixtures
pub mod Life
pub mod Paid
pub mod Runs
pub mod Verdicts
pub mod Jobs
pub mod Wallets
pub mod Guards
pub mod World
pub mod Services
pub mod Checkouts
pub mod Older
