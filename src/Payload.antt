-- ===== src/Payload.antt =====
-- core/src/payload.rs: the envelope that carries a name and a type inside the plaintext.
pub mod Boundary
pub mod Text
pub mod Utf8
pub mod Label
pub mod Envelope
pub mod Name
pub mod Mime
pub mod RoundTrip
pub mod Delivery
