-- ===== src/Handshake/Watching/Steps.antt =====
-- core/src/wasm.rs: what one more frame does to a receiver that has the key.
use rabaska.Prelude.{
  ℕ, ◌+◌, ◌%◌, ◌≡◌, ◌≢◌, ◌≤◌, ◌<◌, ◌⊎◌, max, inl, inr, ap, subst, ◌∙◌, Option, none, some, true,
  false, List, ◌∷◌, length, All, arith,
}
use native.Mathlib.Nat.{le-max_right, mod-add-mod}
use rabaska.Prelude.Bytes.{Bytes}
use rabaska.Error.{ok}
use rabaska.Wire.Frame.{Crc}
use rabaska.Wire.Beacon
use rabaska.Wire.Beacon.{Beacon}
use rabaska.Wire.Beacon.RoundTrip as BeaconTrip
use rabaska.Wire.Symbol
use rabaska.Wire.Symbol.{packets_per_frame}
use rabaska.Crypto.Primitives.{Primitives}
use rabaska.Pipeline.Services.{Deflate, Fountain}
use rabaska.Pipeline.Transmitter.{Transmitter}
use rabaska.Pipeline.Transmitter.Validity.{window, wrap, advance, symbols, next_frame_at_le}
use rabaska.Pipeline.Receiver as Rx
use rabaska.Pipeline.Transfer.{Offers}
use rabaska.Pipeline.Transfer.Completing.{Completes, Knows}
use rabaska.Pipeline.Transfer.Showing.{
  Works, DeliversOrKnows, ingest_symbol-Works, ingest_beacon-Works,
}
use rabaska.Pipeline.Transfer.Cycling.{KnowsFrom, window-mod, window-KnowsFrom}
use rabaska.Pipeline.Transfer.Sending.{wrap-Sends, advance-Sends}
use rabaska.Handshake.{Send, FrameOut, next_frame}
use rabaska.Handshake.Receive as Receive
use rabaska.Handshake.Receive.{Receive, IngestResult, finished, reported}
use rabaska.Handshake.Exchange.{Streams}
use rabaska.Handshake.Exchange.Underway.{ingest_rx}
use rabaska.Handshake.Watching.{watch, watch_step, next_frame_due, next_frame_symbol, symbols_read}

module _ ⦃crc : Crc⦄ ⦃prim : Primitives⦄ ⦃deflate : Deflate⦄ ⦃fountain : Fountain⦄ (b : Beacon)
    (pool : List Bytes) (key payload : Bytes) (offer : Offers b pool key payload)
    (law : Completes b.oti offer.object pool) where
  -- A released sender, and a receiver that has the key and was shown `m` packets from place `c` of the cycle on.
  pub record IsOn (c m : ℕ) (send : Send) (r : Receive) : Type 0 where
    pub tx : Streams b pool payload send.tx
    pub held : send.tx.held ≡ false
    pub inside : c < length pool
    pub cursor : send.tx.cursor ≡ (c + m) % length pool
    pub works : Works b pool key payload offer law r.rx
    pub known : KnowsFrom b pool key payload offer law c m r.rx

  pub wrap-Streams : (t : Transmitter) → Streams b pool payload t → Streams b pool payload (wrap t)
  unfolding wrap
  wrap-Streams t streams = record {
    sends = wrap-Sends b pool payload t streams.sends;
    interval = streams.interval;
  }

  pub advance-Streams :
      (t : Transmitter) (n : ℕ) → Streams b pool payload t → Streams b pool payload (advance t n)
  unfolding advance
  advance-Streams t n streams = record {
    sends = advance-Sends b pool payload t n streams.sends;
    interval = streams.interval;
  }

  pub beacon_read :
      (t : Transmitter) → Streams b pool payload t → Beacon.decode t.beacon_bytes ≡ ok b
  beacon_read t streams =
      ap Beacon.decode streams.sends.valid.beacon_bytes
      ∙ BeaconTrip.decode-encode t.beacon streams.sends.valid.beacon
      ∙ ap ok streams.sends.beacon

  -- The beacon once more changes nothing for the receiver.
  pub beacon-IsOn :
      (c m : ℕ) (send : Send) (r : Receive) (capacity : ℕ) (capacities : List ℕ)
      → IsOn c m send r
      → send.tx.frame_id % 15 ≡ 0
      → let send' : Send = record send { tx = wrap send.tx } in
        (watch (capacity ∷ capacities) send r ≡ watch capacities send' r) × IsOn c m send' r
  unfolding reported wrap
  beacon-IsOn c m send r capacity capacities on turn =
      let send' : Send = record send { tx = wrap send.tx } in
      let shows = next_frame_due b pool payload send capacity on.tx turn in
      let frame = send.tx.beacon_bytes in
      let reads = ingest_rx r frame r.rx Rx.ignored (
        ingest_beacon-Works b pool key payload offer law r.rx frame on.works
          (beacon_read send.tx on.tx)) in
      (
        watch_step send send' (record { robust = true; bytes = frame }) r r
            (record {
              kind = Receive.ignored;
              received = 0;
              needed = 0;
              payload = none;
              sas = none;
            })
            capacity capacities shows reads,
        record {
          tx = wrap-Streams send.tx on.tx;
          held = on.held;
          inside = on.inside;
          cursor = on.cursor;
          works = on.works;
          known = on.known;
        },
      )

  -- The receiver hands the payload out, or was shown more packets and works on.
  abbrev pub Gains : ℕ → ℕ → Send → List ℕ → Option Bytes → Type 0
  Gains c m send' capacities p =
      (p ≡ some payload)
      ⊎ ((r' : Receive) × (n : ℕ) × (1 ≤ n)
          × (p ≡ watch capacities send' r')
          × IsOn c (m + n) send' r')

  heard-Gains :
      (c m n : ℕ) (send : Send) (r : Receive) (capacity : ℕ) (capacities : List ℕ)
      → IsOn c m send r
      → 1 ≤ n
      → let send' : Send = record send { tx = advance send.tx n } in
        let sf = symbols send.tx n in
        next_frame send capacity ≡ ok (send', record { robust = false; bytes = Symbol.encode sf })
        → DeliversOrKnows b pool key payload offer law r.rx sf.packets
            (Rx.ingest r.rx (Symbol.encode sf))
        → Gains c m send' capacities (watch (capacity ∷ capacities) send r)
  unfolding reported advance
  heard-Gains c m n send r capacity capacities on one shows heard =
      let t = send.tx in
      let send' : Send = record send { tx = advance t n } in
      let frame = Symbol.encode (symbols t n) in
      let f : FrameOut = record { robust = false; bytes = frame } in
      let rx = (Rx.ingest r.rx frame).0 in
      let r' : Receive = record r { rx = rx } in
      elim heard [
        | inl (delivered, _) ↦
            let reads = ingest_rx r frame rx (Rx.done payload) (λ i. (rx, delivered i)) in
            inl (
              watch_step send send' f r r'
                (record {
                  kind = finished;
                  received = rx.received;
                  needed = rx.needed;
                  payload = some payload;
                  sas = none;
                })
                capacity capacities shows reads)
        | inr ((x, y, going), works, keeps, shown) ↦
            let reads = ingest_rx r frame rx (Rx.progress x y) (λ i. (rx, going i)) in
            let place : window n t.packets t.cursor ≡ window n pool (c + m) =
              ap (λ ps. window n ps t.cursor) on.tx.sends.packets
              ∙ ap (window n pool) on.cursor
              ∙ window-mod n pool (c + m) in
            let on' : IsOn c (m + n) send' r' = record {
              tx = advance-Streams t n on.tx;
              held = on.held;
              inside = on.inside;
              cursor =
                  ap (λ k. (k + n) % length t.packets) on.cursor
                  ∙ ap (λ ps. ((c + m) % length pool + n) % length ps) on.tx.sends.packets
                  ∙ mod-add-mod (c + m) (length pool) n
                  ∙ ap (λ k. k % length pool) (let e : c + m + n ≡ c + (m + n) = omega arith in e);
              works = works;
              known =
                  window-KnowsFrom b pool key payload offer law r.rx rx n c m keeps on.known
                    (subst (All (Knows b pool key rx)) place shown);
            } in
            inr (
              r',
              n,
              one,
              watch_step send send' f r r'
                  (record {
                    kind = Receive.progress;
                    received = x;
                    needed = y;
                    payload = none;
                    sas = none;
                  })
                  capacity capacities shows reads,
              on',
            )
      ]

  -- A frame of packets.
  pub symbol-Gains :
      (c m : ℕ) (send : Send) (r : Receive) (capacity : ℕ) (capacities : List ℕ)
      → IsOn c m send r
      → send.tx.frame_id % 15 ≢ 0
      → let n = max (packets_per_frame capacity send.tx.packet_len) 1 in
        Gains c m
          (record send { tx = advance send.tx n })
          capacities
          (watch (capacity ∷ capacities) send r)
  symbol-Gains c m send r capacity capacities on turn =
      let t = send.tx in
      let n = max (packets_per_frame capacity t.packet_len) 1 in
      let sf = symbols t n in
      let (read, own, from) =
        symbols_read b pool payload t n on.tx (next_frame_at_le capacity t.packet_len) in
      heard-Gains c m n send r capacity capacities on
        (le-max_right (packets_per_frame capacity t.packet_len) 1)
        (next_frame_symbol b pool payload send capacity on.tx on.held turn)
        (ingest_symbol-Works b pool key payload offer law r.rx (Symbol.encode sf) sf on.works read
          own from)
