-- ===== src/Handshake/Getters/Consistent.antt =====
-- core/src/wasm.rs and core/src/pipeline.rs: the numbers that a receiver shows agree with what it holds.
use rabaska.Prelude.{ℕ, ◌≡◌, sym, ap, ◌∙◌, false, length, arith}
use rabaska.Prelude.Bytes.{Bytes, IsArray}
use rabaska.Floats.{Floats}
use rabaska.Crypto.Primitives.{Primitives}
use rabaska.Pipeline.Services.{Fountain}
use rabaska.Pipeline.Receiver.Invariant.{IsValid}
use rabaska.Pipeline.Receiver.Contract.Sets.{length_ids}
use rabaska.Handshake.{returns}
use rabaska.Handshake.Receive.{Receive}
use rabaska.Handshake.Getters.{checkpoint, progress_of, distinct, fraction_of}
use rabaska.Handshake.Identity.{generated, from_secret, export_secret}

-- A valid receiver's `distinct` is what it counts, and the length of its checkpoint.
distinct_lem :
    ⦃fountain : Fountain⦄ (r : Receive)
    → IsValid r.rx
    → (distinct r.rx ≡ (progress_of r.rx).0) × (distinct r.rx ≡ length (checkpoint r))
distinct_lem r v = (
  ap length v.ids ∙ length_ids r.rx.seen ∙ sym v.received,
  ap length v.ids ∙ length_ids r.rx.seen,
)

-- A fraction is never more than 1, if 1 is not below 0.
fraction_of_le :
    ⦃f : Floats⦄ (received needed : ℕ)
    → f.lt (f.of_nat 1) (f.of_nat 0) ≡ false
    → f.lt (f.of_nat 1) (fraction_of received needed) ≡ false
unfolding fraction_of
fraction_of_le ⦃f⦄ received needed order = ground (arith, f.lt_irrefl (f.of_nat 1))

-- An identity that is restored from what it exported is the same.
from_secret-export_secret :
    ⦃prim : Primitives⦄ (secret : Bytes)
    → IsArray 32 secret
    → from_secret (export_secret (generated secret)) ≡ returns (generated secret)
unfolding from_secret generated
from_secret-export_secret secret h = let len = h.0 in ground arith
