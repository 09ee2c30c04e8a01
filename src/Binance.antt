-- ===== src/Binance.antt =====
-- The C++ code that reads what the historical adapter writes (cpp/exchange/binance, cpp/replay).
pub mod Book
pub mod OrderBook
pub mod DepthSync
pub mod Replay
pub mod Agreement
