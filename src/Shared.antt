-- ===== src/Shared.antt =====
-- Names that every module of the development shares: the libraries', passed on, and those of
-- the children, which hold the Boolean tests, lists and key-value maps over the native numbers.
pub mod Tests
pub mod Lists
pub mod Maps
pub mod Outcome
