-- ===== src/Scheduling.antt =====
-- scheduling/greedy.py: the three schedulers and the helpers that they share.
pub mod Intervals
pub mod Selection
pub mod Edf
pub mod Weighted
pub mod Pick
pub mod Heap
pub mod Conflicts
pub mod Slots
pub mod Stations
pub mod Tree
pub mod Optimizer
