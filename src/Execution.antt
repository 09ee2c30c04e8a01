-- ===== src/Execution.antt =====
-- The taker execution engine (pyresearch/execution/engine.py).
pub mod Walk
pub mod Day
pub mod Partition
pub mod Windows
pub mod Fills
pub mod Costs
mod CostTests
mod Tests
