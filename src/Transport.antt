-- ===== src/Transport.antt =====
-- crates/ladoflow-transport: packets, bounded queues, and the transports that carry them.
pub mod Packet
pub mod Queue
pub mod Loopback
pub mod Stream
pub mod Pairing
