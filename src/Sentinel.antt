-- ===== src/Sentinel.antt =====
-- pkg/controllers/sentinel: a deployment of redis sentinels that monitor the masters.
pub mod Annotation
pub mod Handler
