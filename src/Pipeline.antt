-- ===== src/Pipeline.antt =====
-- src/pipeline.rs: what the gateway does between a request and its answer.
pub mod Tools
pub mod Policy
pub mod Failover
pub mod Driver
