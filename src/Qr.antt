-- ===== src/Qr.antt =====
-- core/src/qr.rs: the QR rung of the ladder.
pub mod Boundary
pub mod Encoder
pub mod Capacity
pub mod Render
pub mod Plan
pub mod Fits
