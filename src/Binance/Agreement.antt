-- ===== src/Binance/Agreement.antt =====
-- The packing loop of pyresearch/historical/l2.py against the synchronizer that reads its records.
pub mod Calls
pub mod Snapshots
pub mod Relation
pub mod Steps
pub mod LiveSteps
pub mod Payloads
pub mod Packed
mod Tests
