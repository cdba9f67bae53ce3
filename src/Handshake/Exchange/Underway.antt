-- ===== src/Handshake/Exchange/Underway.antt =====
-- core/src/wasm.rs: along an exchange, the receiver waits for the beacon, works with the key, or has delivered.
use rabaska.Prelude.{
  Option, ◌≡◌, ◌≢◌, ◌⊎◌, inl, inr, refl, sym, ap, subst, ◌∙◌, none, false, List, All,
}
use rabaska.Prelude.Bytes.{Bytes}
use rabaska.Error.{ok}
use rabaska.Wire.Frame.{Crc}
use rabaska.Wire.Beacon
use rabaska.Wire.Beacon.{Beacon}
use rabaska.Wire.Symbol
use rabaska.Crypto.Primitives.{Primitives}
use rabaska.Pipeline.Services.{Deflate, Fountain}
use rabaska.Pipeline.Receiver as Rx
use rabaska.Pipeline.Transfer.{IsFrom, Offers, IsFrameOf}
use rabaska.Pipeline.Transfer.Completing.{Completes}
use rabaska.Pipeline.Transfer.Showing.{Works}
use rabaska.Pipeline.Transfer.Stages.{
  Waits, acquires, Goes, ingest_beacon-Waits, acquires-Works, ingest_symbol-Waits, ingest-Goes,
}
use rabaska.Handshake.{Session, Send}
use rabaska.Handshake.Receive as Receive
use rabaska.Handshake.Receive.{Receive, IngestResult, derive_and_set, acquired, reported}
use rabaska.Handshake.Exchange.{
  Shares, IsOf, Exchange, start, lost, seen, revealing, releasing, Streams, accept_reveal_keeps,
  release_keeps, shown_by,
}
use rabaska.Handshake.Exchange.Keeps.{keyed_at, told, keyed_step}

module _ ⦃crc : Crc⦄ ⦃prim : Primitives⦄ ⦃deflate : Deflate⦄ ⦃fountain : Fountain⦄ where
  -- What `ingest` leaves of the pipeline's receiver, but after a beacon.
  pub ingest_rx :
      (r : Receive) (frame : Bytes) (rx : Rx.Receiver) (what : Rx.Ingest)
      → Rx.ingest r.rx frame ≡ (rx, ok what)
      → Receive.ingest r frame ≡ reported (record r { rx = rx }) what
  unfolding Receive.ingest
  ingest_rx r frame rx what run =
      let outcome : (Rx.ingest r.rx frame).1 ≡ ok what = ap (λ x. x.1) run in
      rw (Receive.ingest, outcome) (ap (λ x. reported (record r { rx = x.0 }) what) run)

module _ ⦃crc : Crc⦄ ⦃prim : Primitives⦄ ⦃deflate : Deflate⦄ ⦃fountain : Fountain⦄ (s : Session)
    (peer : Option Bytes) (b : Beacon) (pool : List Bytes) (key payload : Bytes)
    (shares : Shares s peer b key) (offer : Offers b pool key payload)
    (law : Completes b.oti offer.object pool) where
  -- A receiver of the session that has no beacon and no key.
  pub record IsEarly (r : Receive) : Type 0 where
    pub waits : Waits b pool key payload offer law r.rx
    pub keyed : r.keyed ≡ false
    pub own : IsOf s peer r

  abbrev pub Stage : Receive → Type 0
  Stage r = IsEarly r ⊎ Goes b pool key payload offer law r.rx

  -- The beacon, for a receiver that waits for it.
  pub beacon-IsEarly :
      (r : Receive) (frame : Bytes)
      → IsEarly r
      → Beacon.decode frame ≡ ok b
      → (result : IngestResult) × (r' : Receive) × (Receive.ingest r frame ≡ (r', ok result))
        × (result.kind ≡ Receive.beacon)
        × Works b pool key payload offer law r'.rx
  unfolding reported
  beacon-IsEarly r frame early read =
      let rx = acquires b pool key payload offer law r.rx in
      let r₁ : Receive = record r { rx = rx } in
      let step =
        ingest_rx r frame rx Rx.beacon_acquired
          (ingest_beacon-Waits b pool key payload offer law r.rx frame early.waits read) in
      let keys = keyed_step s peer b pool key payload shares offer r₁ early.own early.keyed refl in
      (
        told s peer b pool key payload shares offer r₁,
        keyed_at s peer b pool key payload shares offer r₁,
        step ∙ keys,
        refl,
        acquires-Works b pool key payload offer law r.rx early.waits,
      )

  -- Packets, for a receiver that waits for the beacon.
  pub symbol-IsEarly :
      (r : Receive) (frame : Bytes) (sf : Symbol.SymbolFrame)
      → IsEarly r
      → Symbol.decode frame ≡ ok sf
      → All (IsFrom pool) sf.packets
      → (result : IngestResult) × (r' : Receive) × (Receive.ingest r frame ≡ (r', ok result))
        × (result.kind ≡ Receive.ignored)
        × IsEarly r'
  unfolding reported
  symbol-IsEarly r frame sf early read from =
      let (waits, silent) =
        ingest_symbol-Waits b pool key payload offer law r.rx frame sf early.waits read from in
      let rx = (Rx.ingest r.rx frame).0 in
      let step = ingest_rx r frame rx Rx.ignored (λ i. (rx, silent i)) in
      (
        record { kind = Receive.ignored; received = 0; needed = 0; payload = none; sas = none },
        record r { rx = rx },
        step,
        refl,
        record { waits = waits; keyed = early.keyed; own = early.own },
      )

  -- A receiver that has the key.
  goes_lem :
      (r : Receive) (frame : Bytes)
      → Goes b pool key payload offer law r.rx
      → IsFrameOf b pool frame
      → Goes b pool key payload offer law (Receive.ingest r frame).0.rx
  unfolding reported
  goes_lem r frame goes which =
      let (goes', (what, run, old)) =
        ingest-Goes b pool key payload offer law r.rx frame goes which in
      let rx = (Rx.ingest r.rx frame).0 in
      let step = ingest_rx r frame rx what (λ i. (rx, run i)) in
      subst (λ x. Goes b pool key payload offer law x.0.rx) (sym step) (kept what old goes')
    where
      kept :
          {rx : Rx.Receiver} (what : Rx.Ingest)
          → what ≢ Rx.beacon_acquired
          → Goes b pool key payload offer law rx
          → Goes b pool key payload offer law (reported (record r { rx = rx }) what).0.rx
      kept Rx.beacon_acquired old goes' = absurd (old refl)
      kept (Rx.progress n m) old goes' = goes'
      kept (Rx.done plaintext) old goes' = goes'
      kept Rx.ignored old goes' = goes'

  stage_lem :
      (r : Receive) (frame : Bytes)
      → Stage r
      → IsFrameOf b pool frame
      → Stage (Receive.ingest r frame).0
  stage_lem r frame (inr goes) which = inr (goes_lem r frame goes which)
  stage_lem r frame (inl early) (inl read) =
      let (_, _, run, _, works) = beacon-IsEarly r frame early read in
      subst (λ x. Stage x.0) (sym run) (inr (inl works))
  stage_lem r frame (inl early) (inr (sf, read, own, from)) =
      let (_, _, run, _, early') = symbol-IsEarly r frame sf early read from in
      subst (λ x. Stage x.0) (sym run) (inl early')

  -- Both ends, at any point of the exchange.
  pub record IsUnderway (send : Send) (r : Receive) : Type 0 where
    pub tx : Streams b pool payload send.tx
    pub stage : Stage r

  pub exchange-IsUnderway :
      (send₀ : Send) (r₀ : Receive) (send : Send) (r : Receive)
      → IsUnderway send₀ r₀
      → Exchange send₀ r₀ send r
      → IsUnderway send r
  exchange-IsUnderway send₀ r₀ _ _ x start = x
  exchange-IsUnderway send₀ r₀ _ r x
        (lost {send = send} {send' = send'} {f = f} capacity before shows) =
      let y = exchange-IsUnderway send₀ r₀ send r x before in
      record { tx = (shown_by b pool payload send send' f capacity y.tx shows).0; stage = y.stage }
  exchange-IsUnderway send₀ r₀ _ _ x
        (seen {send = send} {send' = send'} {r = r} {f = f} capacity before shows) =
      let y = exchange-IsUnderway send₀ r₀ send r x before in
      let (streams, which) = shown_by b pool payload send send' f capacity y.tx shows in
      record { tx = streams; stage = stage_lem r f.bytes y.stage which }
  exchange-IsUnderway send₀ r₀ _ _ x (revealing {send = send} {r = r} frame before) =
      let y = exchange-IsUnderway send₀ r₀ send r x before in
      record { tx = accept_reveal_keeps b pool payload send frame y.tx; stage = y.stage }
  exchange-IsUnderway send₀ r₀ _ _ x (releasing {send = send} {r = r} before) =
      let y = exchange-IsUnderway send₀ r₀ send r x before in
      record { tx = release_keeps b pool payload send y.tx; stage = y.stage }
