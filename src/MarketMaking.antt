-- ===== src/MarketMaking.antt =====
-- The market-making simulation (pyresearch/obi/continuous_mm.py) and what keeps it in its limits.
pub mod Permission
pub mod Fills
pub mod Schedule
pub mod Liquidation
pub mod Limits
pub mod Counts
pub mod Reports
mod Tests
