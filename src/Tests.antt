-- ===== src/Tests.antt =====
-- Concrete runs: tests, and the theorems at inputs that meet their hypotheses.
mod Samples
mod Escape
mod Paths
mod Trails
mod Restart
mod Physics
mod Wire
mod Hidden
mod Rival
mod Half
mod Games
mod Gates
