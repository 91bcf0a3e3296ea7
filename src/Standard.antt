-- ===== src/Standard.antt =====
-- pkg/controllers/standard: one stateful set with one master.
pub mod State
pub mod Workload
pub mod Replication
pub mod Scaling
pub mod Handler
