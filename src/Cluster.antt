-- ===== src/Cluster.antt =====
-- pkg/controllers/cluster: several stateful sets, one a shard, under the kvrocks controller.
pub mod State
pub mod Topology
pub mod Workload
pub mod Failover
pub mod Roles
pub mod Membership
pub mod Migration
pub mod Shrink
pub mod Deployment
pub mod Handler
