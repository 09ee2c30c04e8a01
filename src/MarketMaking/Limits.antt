-- ===== src/MarketMaking/Limits.antt =====
-- Why the position of a simulation stays inside its hard limit.
pub mod Rooms
pub mod Queue
pub mod Orders
pub mod Rows
