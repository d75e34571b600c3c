-- ===== src/Demo.antt =====
-- Autonomous Demo trading: the risk rules and the durable ledger (src/execution).
pub mod Errors
pub mod Trade
pub mod Risk
pub mod Table
pub mod Ledger
pub mod Daily
pub mod Session
mod Tests
