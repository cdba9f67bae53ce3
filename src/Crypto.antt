-- ===== src/Crypto.antt =====
-- core/src/crypto.rs: key agreement, AEAD and the human-facing values.
pub mod Primitives
pub mod Keys
pub mod Agreement
pub mod Human
pub mod Commitment
pub mod Sas
