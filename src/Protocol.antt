-- ===== src/Protocol.antt =====
-- crates/ladoflow-protocol: the binary frame boundary and the typed payloads.
pub mod Error
pub mod Frame
pub mod Decoder
pub mod Message
pub mod Control
pub mod Display
pub mod Telemetry
pub mod Input
pub mod Payloads
