-- ===== src/Pipeline.antt =====
-- core/src/pipeline.rs: compression, the transmitter and the receiver.
pub mod Services
pub mod Compress
pub mod Transmitter
pub mod Receiver
pub mod Transfer
