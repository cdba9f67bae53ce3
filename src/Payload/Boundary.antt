-- ===== src/Payload/Boundary.antt =====
-- core/src/wasm.rs: `payload_wrap` and `payload_unwrap`.
use rabaska.Prelude.{Option}
use rabaska.Prelude.Bytes.{Bytes}
use rabaska.Payload.Text.{Text}
use rabaska.Payload.Envelope.{wrap, unwrap}

unfoldable payload_wrap : Bytes → Text → Text → Bytes
unfolding wrap
payload_wrap body name mime = wrap body name mime

record PayloadOut : Type 0 where
  pub body : Bytes
  pub name : Option Text
  pub mime : Option Text

unfoldable payload_unwrap : Bytes → PayloadOut
unfolding unwrap
payload_unwrap raw = let p = unwrap raw in record { body = p.body; name = p.name; mime = p.mime }
