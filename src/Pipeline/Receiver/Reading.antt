-- ===== src/Pipeline/Receiver/Reading.antt =====
-- core/src/pipeline.rs: the frames that `ingest` reads.
use rabaska.Prelude.{◌≡◌, false, none, some, not, ltb, length, arith}
use rabaska.Prelude.Bytes.{Bytes}
use rabaska.Error.{ok, >>=-eq-ok, ensure-ok, truncated}
use rabaska.Wire.Types.{beacon_type, symbol_type, beacon_len, symbol_overhead}
use rabaska.Wire.Beacon
use rabaska.Wire.Beacon.{Beacon}
use rabaska.Wire.Symbol
use rabaska.Wire.Frame.{Crc, peek_type, open_frame, open_frame-peek_type}
use rabaska.Crypto.Primitives.{Primitives}
use rabaska.Pipeline.Services.{Deflate, Fountain}
use rabaska.Pipeline.Receiver.{Receiver, ingest_beacon, ingest_symbol, ingest}

pub beacon_decode-peek_type :
    ⦃crc : Crc⦄ (frame : Bytes) (b : Beacon)
    → Beacon.decode frame ≡ ok b
    → peek_type frame ≡ ok beacon_type
unfolding Beacon.decode
beacon_decode-peek_type frame b h =
    let (body, opened, _) = >>=-eq-ok (open_frame frame beacon_type (some beacon_len)) _ h in
    open_frame-peek_type frame beacon_type (some beacon_len) body (λ e. omega arith) opened

pub symbol_decode-peek_type :
    ⦃crc : Crc⦄ (frame : Bytes) (sf : Symbol.SymbolFrame)
    → Symbol.decode frame ≡ ok sf
    → peek_type frame ≡ ok symbol_type
unfolding Symbol.decode
symbol_decode-peek_type frame sf h =
    let (body, opened, _) = >>=-eq-ok (open_frame frame symbol_type none) _ (
      ensure-ok (not (ltb (length frame) symbol_overhead))
        (truncated symbol_overhead (length frame)) _ h) in
    open_frame-peek_type frame symbol_type none body (λ e. omega arith) opened

module _ ⦃crc : Crc⦄ ⦃prim : Primitives⦄ ⦃deflate : Deflate⦄ ⦃fountain : Fountain⦄ where
  pub ingest_read_beacon :
      (r : Receiver) (frame : Bytes) (b : Beacon)
      → r.done ≡ false
      → Beacon.decode frame ≡ ok b
      → ingest r frame ≡ ingest_beacon r b
  unfolding ingest
  ingest_read_beacon r frame b open_still read =
      let peeked = beacon_decode-peek_type frame b read in ground arith

  pub ingest_read_symbol :
      (r : Receiver) (frame : Bytes) (sf : Symbol.SymbolFrame)
      → r.done ≡ false
      → Symbol.decode frame ≡ ok sf
      → ingest r frame ≡ ingest_symbol r sf
  unfolding ingest
  ingest_read_symbol r frame sf open_still read =
      let peeked = symbol_decode-peek_type frame sf read in ground arith
