-- ===== src/Book.antt =====
-- Order books that are rebuilt from raw market events (src/data).
pub mod Event
pub mod Side
pub mod Bybit
pub mod Ticker
pub mod Replay
pub mod BybitSession
pub mod Okx
pub mod Binance
mod Tests
