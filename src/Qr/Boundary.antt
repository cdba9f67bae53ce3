-- ===== src/Qr/Boundary.antt =====
-- core/src/wasm.rs: `render_qr`.
use rabaska.Prelude.{ℕ}
use rabaska.Prelude.Bytes.{Bytes}
use rabaska.Qr.Encoder.{QrEncoder}
use rabaska.Qr.Capacity.{ecc_of_byte}
use rabaska.Qr.Render.{encode_luma}
use rabaska.Handshake.{JsResult, returns, try◌then◌}

record QrOut : Type 0 where
  pub luma : Bytes
  pub width : ℕ
  pub height : ℕ

-- On wasm32 a `usize` has 32 bits.
unfoldable render_qr : ⦃qr : QrEncoder⦄ → Bytes → ℕ → ℕ → JsResult QrOut
unfolding ecc_of_byte encode_luma
render_qr bytes ecc scale = try encode_luma 32 bytes (ecc_of_byte ecc) scale 4 then λ r.
    returns (record { luma = r.luma; width = r.width; height = r.height })
