-- ===== src/Wire.antt =====
-- core/src/wire.rs: frame layouts and their serialization.
pub mod Types
pub mod Frame
pub mod PairReq
pub mod Reveal
pub mod Complete
pub mod Beacon
pub mod Symbol
pub mod Arrays
