-- ===== src/Verifier.antt =====
-- The verifier service, verifier-service/src: it watches Nostr for results, runs the verification,
-- signs the verdict, submits it to the escrow contract and posts it.
pub mod Config
pub mod Host
pub mod Nostr
pub mod Radicle
pub mod Executor
pub mod Scorer
pub mod Base58
pub mod Submitter
pub mod Checkout
pub mod Pipeline
pub mod Startup
pub mod OnChain
