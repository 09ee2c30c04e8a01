-- ===== src/MarketMaking/Counts.antt =====
-- The counters and accounts of a simulation add up.
pub mod Fills
pub mod Rows
