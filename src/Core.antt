-- ===== src/Core.antt =====
-- crates/ladoflow-core: negotiation, the session state machine and the quality policy.
pub mod Negotiation
pub mod Session
pub mod Telemetry
pub mod Quality
