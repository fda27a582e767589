-- ===== src/Persistence.antt =====
-- The tables of the credit ledger and the stores that run transactions on them (src/persistence).
pub mod Database
pub mod Queries
pub mod Ledger
pub mod DailyClaim
pub mod Enrollment
pub mod Departure
pub mod SettlementStore
pub mod BetStore
pub mod History
pub mod Tests
pub mod BetTests
