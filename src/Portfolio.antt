-- ===== src/Portfolio.antt =====
-- The shared portfolio risk budget (src/risk/portfolio_engine.py), and the file that keeps it
-- (src/risk/portfolio_state_store.py).
pub mod Records
pub mod Engine
pub mod Entry
pub mod Calls
pub mod Store
pub mod Sample
mod Tests
