-- ===== src/Pipeline/Transfer/Stages.antt =====
-- core/src/pipeline.rs: the stages of a receiver that hears one transmitter: it waits for the beacon, it works, or
-- it has delivered.
use rabaska.Prelude.{
  ◌≡◌, ◌≢◌, ◌⊎◌, inl, inr, refl, sym, ap, subst, ◌∙◌, none, some, true, false, List, [], ◌++◌, map,
  All, All-append, arith,
}
use rabaska.Prelude.Bytes.{Bytes}
use rabaska.Error.{Result, ok}
use rabaska.Wire.Beacon
use rabaska.Wire.Beacon.{Beacon}
use rabaska.Wire.Symbol
use rabaska.Wire.Frame.{Crc}
use rabaska.Crypto.Primitives.{Primitives}
use rabaska.Pipeline.Services.{Deflate, Fountain}
use rabaska.Pipeline.Receiver.{
  Receiver, Ingest, ignored, done, progress, beacon_acquired, hold, set_key, symbols_needed, id_of,
  ingest_beacon, ingest_symbol, ingest,
}
use rabaska.Pipeline.Transfer.{IsFrom, Offers, IsFrameOf, fed}
use rabaska.Pipeline.Receiver.Reading.{beacon_decode-peek_type, symbol_decode-peek_type}
use rabaska.Pipeline.Transfer.Frames.{pending-IsFrom}
use rabaska.Pipeline.Transfer.Completing.{Completes}
use rabaska.Pipeline.Transfer.Showing.{Works, ingest_symbol-Works, ingest_beacon-Works}

module _ ⦃crc : Crc⦄ ⦃prim : Primitives⦄ ⦃deflate : Deflate⦄ ⦃fountain : Fountain⦄ (b : Beacon)
    (pool : List Bytes) (key payload : Bytes) (offer : Offers b pool key payload)
    (law : Completes b.oti offer.object pool) where
  -- No beacon yet; packets may be put aside.
  pub record Waits (r : Receiver) : Type 0 where
    pub beacon : r.beacon ≡ none
    pub seen : r.seen ≡ []
    pub ids : r.ids ≡ []
    pub pending : All (λ q. IsFrom pool q.1) r.pending
    pub not_done : r.done ≡ false

  -- The receiver that has taken the beacon.
  abbrev pub acquires : Receiver → Receiver
  acquires r = record r {
    needed = symbols_needed (fountain.transfer_length b.oti) (fountain.symbol_size b.oti);
    decoder = some (fountain.new_decoder b.oti);
    beacon = some b;
  }

  pub ingest_beacon-Waits :
      (r : Receiver) (frame : Bytes)
      → Waits r
      → Beacon.decode frame ≡ ok b
      → ingest r frame ≡ (acquires r, ok beacon_acquired)
  unfolding ingest ingest_beacon
  ingest_beacon-Waits r frame w read =
      let peeked = beacon_decode-peek_type frame b read in
      let without = w.beacon in
      let not_done = w.not_done in
      let inner : ingest_beacon r b ≡ (acquires r, ok beacon_acquired) = ground arith in
      let step : ingest r frame ≡ ingest_beacon r b = ground arith in step ∙ inner

  pub acquires-Works :
      (r : Receiver) → Waits r → Works b pool key payload offer law (set_key (acquires r) key)
  unfolding set_key
  acquires-Works r w = record {
    collects = record {
      beacon = refl;
      keyed = refl;
      decoder = ap (λ ps. some (fed (fountain.new_decoder b.oti) ps)) (sym w.seen);
      from = subst (All (IsFrom pool)) (sym w.seen) tt;
      ids = w.ids ∙ ap (map id_of) (sym w.seen);
      unfinished = inl w.seen;
    };
    pending = w.pending;
    not_done = w.not_done;
  }

  pub ingest_symbol-Waits :
      (r : Receiver) (frame : Bytes) (sf : Symbol.SymbolFrame)
      → Waits r
      → Symbol.decode frame ≡ ok sf
      → All (IsFrom pool) sf.packets
      → Waits (ingest r frame).0 × ((ingest r frame).1 ≡ ok ignored)
  unfolding ingest ingest_symbol hold
  ingest_symbol-Waits r frame sf w read from =
      let peeked = symbol_decode-peek_type frame sf read in
      let without = w.beacon in
      let not_done = w.not_done in
      let r' : Receiver = record r { pending = r.pending ++ map (λ p. (sf.sid4, p)) sf.packets } in
      let inner : ingest_symbol r sf ≡ (r', ok ignored) = ground arith in
      let step : ingest r frame ≡ ingest_symbol r sf = ground arith in
      let waits : Waits r' = record {
        beacon = w.beacon;
        seen = w.seen;
        ids = w.ids;
        pending =
            All-append (λ q. IsFrom pool q.1) r.pending (map (λ p. (sf.sid4, p)) sf.packets)
              w.pending (pending-IsFrom pool sf.sid4 sf.packets from);
        not_done = w.not_done;
      } in
      subst (λ x. Waits x.0 × (x.1 ≡ ok ignored)) (sym (step ∙ inner)) (waits, refl)

  -- The receiver works on, or is done.
  abbrev pub Goes : Receiver → Type 0
  Goes r = Works b pool key payload offer law r ⊎ (r.done ≡ true)

  -- What a frame of the transmitter does to it: no beacon is new, and nothing fails.
  abbrev pub GoesOn : Receiver × Result Ingest → Type 0
  GoesOn x = Goes x.0 × ((what : Ingest) × (x.1 ≡ ok what) × (what ≢ beacon_acquired))

  pub ingest-Goes :
      (r : Receiver) (frame : Bytes) → Goes r → IsFrameOf b pool frame → GoesOn (ingest r frame)
  unfolding ingest
  ingest-Goes r frame (inr finished) which =
      let step : ingest r frame ≡ (r, ok ignored) = ground arith in
      subst GoesOn (sym step) (inr finished, (ignored, refl, λ e. cc))
  ingest-Goes r frame (inl works) (inl read) =
      subst GoesOn (sym (ingest_beacon-Works b pool key payload offer law r frame works read))
        (inl works, (ignored, refl, λ e. cc))
  ingest-Goes r frame (inl works) (inr (sf, read, own, from)) =
      elim (ingest_symbol-Works b pool key payload offer law r frame sf works read own from) [
        | inl (delivered, finished) ↦ (inr finished, (done payload, delivered, λ e. cc))
        | inr ((n, m, going), works', _, _) ↦ (inl works', (progress n m, going, λ e. cc))
      ]
