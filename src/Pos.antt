-- ===== src/Pos.antt =====
-- The payment terminal, pos/*.go.
pub mod Config
pub mod Card
pub mod Transaction
pub mod Db
pub mod Manager
pub mod Settled
pub mod Report
pub mod Ledger
pub mod Handler
pub mod Server
pub mod Command
pub mod Samples
pub mod Schedule
mod Tests
