-- ===== src/Pipeline/Transfer/Frames.antt =====
-- core/src/pipeline.rs: each frame of one transmitter, shown to a receiver that was shown no other.
use rabaska.Prelude.{
  ◌≡◌, inl, inr, refl, sym, subst, none, some, true, false, List, [], ◌∷◌, ◌++◌, map, All,
  All-append, Bool-cases, arith,
}
use rabaska.Prelude.Bytes.{Bytes, slice, bytes_eq, bytes_eq_refl}
use rabaska.Error.{ok}
use rabaska.Wire.Beacon
use rabaska.Wire.Beacon.{Beacon}
use rabaska.Wire.Symbol
use rabaska.Wire.Frame.{Crc}
use rabaska.Crypto.Primitives.{Primitives}
use rabaska.Pipeline.Services.{Deflate, Fountain}
use rabaska.Pipeline.Receiver.{
  Receiver, ignored, beacon_acquired, new, set_key, hold, absorb, ingest_beacon, ingest_symbol,
  ingest, symbols_needed,
}
use rabaska.Pipeline.Receiver.Reading.{beacon_decode-peek_type, symbol_decode-peek_type}
use rabaska.Pipeline.Transfer.{IsFrom, Offers, Tracks, IsFrameOf}
use rabaska.Pipeline.Transfer.Absorbing.{Continues, absorb_from}

pub pending-IsFrom :
    (pool : List Bytes) (sid4 : Bytes) (packets : List Bytes)
    → All (IsFrom pool) packets
    → All {A = Bytes × Bytes} (λ q. IsFrom pool q.1) (map (λ p. (sid4, p)) packets)
pending-IsFrom pool sid4 [] all = tt
pending-IsFrom pool sid4 (p ∷ packets) (from, all) = (from, pending-IsFrom pool sid4 packets all)

module _ ⦃crc : Crc⦄ ⦃prim : Primitives⦄ ⦃deflate : Deflate⦄ ⦃fountain : Fountain⦄ where
  -- The receiver that has the beacon and nothing else.
  abbrev pub started : Beacon → Receiver
  started b = record {
    beacon = some b;
    key = none;
    decoder = some (fountain.new_decoder b.oti);
    pending = [];
    seen = [];
    ids = [];
    received = 0;
    needed = symbols_needed (fountain.transfer_length b.oti) (fountain.symbol_size b.oti);
    done = false;
  }

  pub ingest_first_beacon :
      (b : Beacon) (frame : Bytes)
      → Beacon.decode frame ≡ ok b
      → ingest new frame ≡ (started b, ok beacon_acquired)
  unfolding ingest ingest_beacon new
  ingest_first_beacon b frame read =
      let peeked = beacon_decode-peek_type frame b read in
      let step : ingest new frame ≡ ingest_beacon new b = ground arith in step

module _ ⦃crc : Crc⦄ ⦃prim : Primitives⦄ ⦃deflate : Deflate⦄ ⦃fountain : Fountain⦄ (b : Beacon)
    (pool : List Bytes) (key payload : Bytes) where
  pub new-Tracks : Tracks b pool key new
  unfolding new
  new-Tracks = record { beacon = inl refl; key = inl refl; pending = tt }

  pub set_key-Tracks : (r : Receiver) → Tracks b pool key r → Tracks b pool key (set_key r key)
  unfolding set_key
  set_key-Tracks r t = record { beacon = t.beacon; key = inr refl; pending = t.pending }

  ingest_beacon_from :
      (r : Receiver) → Tracks b pool key r → Continues b pool key payload r (ingest_beacon r b)
  unfolding ingest_beacon
  ingest_beacon_from r t = elim t.beacon [
    | inl without ↦
        let r' : Receiver = record r {
          needed = symbols_needed (fountain.transfer_length b.oti) (fountain.symbol_size b.oti);
          decoder = some (fountain.new_decoder b.oti);
          beacon = some b;
        } in
        let t' : Tracks b pool key r' = record {
          beacon = inr (refl, ([], tt, refl));
          key = t.key;
          pending = t.pending;
        } in
        let step : ingest_beacon r b ≡ (r', ok beacon_acquired) = ground arith in
        subst (Continues b pool key payload r) (sym step) (t', (without, refl))
    | inr (present, _) ↦
        let same = bytes_eq_refl b.session_id in
        let step : ingest_beacon r b ≡ (r, ok ignored) = ground arith in
        subst (Continues b pool key payload r) (sym step) (t, refl)
  ]

  ingest_symbol_from :
      Offers b pool key payload
      → (r : Receiver) (sf : Symbol.SymbolFrame) → Tracks b pool key r
      → sf.sid4 ≡ slice 0 4 b.session_id
      → All (IsFrom pool) sf.packets
      → Continues b pool key payload r (ingest_symbol r sf)
  unfolding ingest_symbol hold
  ingest_symbol_from offer r sf t own all = elim t.beacon [
    | inl without ↦
        let r' : Receiver = record r {
          pending = r.pending ++ map (λ p. (sf.sid4, p)) sf.packets;
        } in
        let t' : Tracks b pool key r' = record {
          beacon = inl without;
          key = t.key;
          pending =
              All-append (λ q. IsFrom pool q.1) r.pending (map (λ p. (sf.sid4, p)) sf.packets)
                t.pending (pending-IsFrom pool sf.sid4 sf.packets all);
        } in
        let step : ingest_symbol r sf ≡ (r', ok ignored) = ground arith in
        subst (Continues b pool key payload r) (sym step) (t', refl)
    | inr (present, fed_from) ↦
        let same : bytes_eq sf.sid4 (slice 0 4 b.session_id) ≡ true =
          rw own (bytes_eq_refl (slice 0 4 b.session_id)) in
        let step : ingest_symbol r sf ≡ absorb r sf.packets = ground arith in
        subst (Continues b pool key payload r) (sym step)
          (absorb_from b pool key payload offer r sf.packets t present all)
  ]

  pub ingest-Continues :
      Offers b pool key payload
      → (r : Receiver) (frame : Bytes) → Tracks b pool key r
      → IsFrameOf b pool frame
      → Continues b pool key payload r (ingest r frame)
  unfolding ingest
  ingest-Continues offer r frame t which = elim (Bool-cases r.done) [
    | inl finished ↦
        let step : ingest r frame ≡ (r, ok ignored) = ground arith in
        subst (Continues b pool key payload r) (sym step) (t, refl)
    | inr open_still ↦ elim which [
      | inl read ↦
          let peeked = beacon_decode-peek_type frame b read in
          let step : ingest r frame ≡ ingest_beacon r b = ground arith in
          subst (Continues b pool key payload r) (sym step) (ingest_beacon_from r t)
      | inr (sf, read, own, all) ↦
          let peeked = symbol_decode-peek_type frame sf read in
          let step : ingest r frame ≡ ingest_symbol r sf = ground arith in
          subst (Continues b pool key payload r) (sym step)
            (ingest_symbol_from offer r sf t own all)
    ]
  ]
