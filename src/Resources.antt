-- ===== src/Resources.antt =====
-- pkg/resources: names, labels, validation and configuration of what the operator creates.
pub mod Names
pub mod Labels
pub mod Validation
pub mod Configs
pub mod Sentinel
pub mod Containers
pub mod Services
pub mod Templates
pub mod Workloads
