-- ===== src/Historical.antt =====
-- The historical L2 adapter (pyresearch/historical/l2.py) and the C++ code that reads its output.
pub mod Message
pub mod Decimal
pub mod Snapshot
pub mod Emission
pub mod Packing
pub mod Hours
pub mod Discovery
pub mod Continuity
pub mod Samples
mod Tests
