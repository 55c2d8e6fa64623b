-- ===== src/Stages.antt =====
pub mod Anomalies
pub mod Loop
pub mod Unique
pub mod Observations
pub mod Observers
pub mod Status
pub mod Nodes
pub mod Signal
pub mod RollupObserver
pub mod RollupNeighbor
