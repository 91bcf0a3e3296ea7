-- ===== src/Events.antt =====
-- pkg/controllers/events: failover messages, from their arrival to the topology that they change.
pub mod Queue
pub mod Listener
pub mod Failover
pub mod Producer
