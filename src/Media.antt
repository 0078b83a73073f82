-- ===== src/Media.antt =====
-- crates/ladoflow-media: the frame timeline, the pacer and the one-frame scheduler.
pub mod FrameRate
pub mod Pacer
pub mod Metrics
pub mod Scheduler
pub mod Synthetic
