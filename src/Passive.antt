-- ===== src/Passive.antt =====
-- Resting orders that are probed passively (pyresearch/passive): where they are placed, the audit's
-- replay of their queue, the marks after a fill, and the policies that select among them.
pub mod Replay
pub mod Labels
pub mod Placements
pub mod Policies
mod Tests
