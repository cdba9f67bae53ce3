-- ===== src/Handshake/Watching/Early.antt =====
-- core/src/wasm.rs: how many frames a receiver needs, wherever the exchange got.
use rabaska.Prelude.{
  ℕ, ◌+◌, ◌-◌, ◌*◌, ◌%◌, ◌^◌, ◌≡◌, ◌≢◌, ◌≤◌, ◌<◌, ◌⊎◌, max, inl, inr, sym, ap, subst, ◌∙◌, Option,
  some, true, false, ◌==◌, List, [], ◌∷◌, length, Bool-cases, arith,
}
use native.Mathlib.Nat.{mod-eq_of_lt}
use rabaska.Prelude.Bytes.{Bytes}
use rabaska.Error.{ok}
use rabaska.Wire.Symbol
use rabaska.Wire.Frame.{Crc}
use rabaska.Wire.Beacon.{Beacon}
use rabaska.Wire.Symbol.{packets_per_frame}
use rabaska.Crypto.Primitives.{Primitives}
use rabaska.Pipeline.Services.{Deflate, Fountain}
use rabaska.Pipeline.Transmitter.{Transmitter}
use rabaska.Pipeline.Transmitter.Validity.{wrap, advance, symbols, next_frame_at_le}
use rabaska.Pipeline.Transfer.{Offers}
use rabaska.Pipeline.Transfer.Completing.{Completes}
use rabaska.Handshake.{Session, Send}
use rabaska.Handshake.Receive.{Receive}
use rabaska.Handshake.Receive.{IngestResult, Kind}
use rabaska.Handshake.Exchange.{Shares, Streams}
use rabaska.Handshake.Exchange.Underway.{IsEarly, IsUnderway, beacon-IsEarly, symbol-IsEarly}
use rabaska.Handshake.Watching.{
  finished_or, watch, watch_step, next_frame_due, next_frame_symbol, symbols_read,
}
use rabaska.Handshake.Watching.Steps.{IsOn, wrap-Streams, advance-Streams, beacon_read}
use rabaska.Handshake.Watching.Keyed.{watch-IsOn}

here_lem : (k n : ℕ) → k < n → k ≡ (k + 0) % n
here_lem k n lt = let same : k + 0 ≡ k = omega arith in sym (ap (λ j. j % n) same ∙ mod-eq_of_lt lt)

module _ ⦃crc : Crc⦄ ⦃prim : Primitives⦄ ⦃deflate : Deflate⦄ ⦃fountain : Fountain⦄ (s : Session)
    (peer : Option Bytes) (b : Beacon) (pool : List Bytes) (key payload : Bytes)
    (shares : Shares s peer b key) (offer : Offers b pool key payload)
    (law : Completes b.oti offer.object pool) where
  -- A released sender, and a receiver that waits for the beacon.
  record IsBefore (send : Send) (r : Receive) : Type 0 where
    pub tx : Streams b pool payload send.tx
    pub held : send.tx.held ≡ false
    pub early : IsEarly s peer b pool key payload shares offer law r

  filled : (t : Transmitter) → Streams b pool payload t → t.cursor < length pool
  filled t streams =
      subst (λ ps. t.cursor < length ps) streams.sends.packets streams.sends.valid.cursor

  -- The beacon comes first.
  first_beacon :
      (send : Send) (r : Receive) (capacity : ℕ) (capacities : List ℕ)
      → IsBefore send r
      → send.tx.frame_id % 15 ≡ 0
      → let send' : Send = record send { tx = wrap send.tx } in
        (r' : Receive) × (watch (capacity ∷ capacities) send r ≡ watch capacities send' r')
        × IsOn b pool key payload offer law send.tx.cursor 0 send' r'
  unfolding wrap
  first_beacon send r capacity capacities before turn =
      let t = send.tx in
      let (result, r', reads, told, works) =
        beacon-IsEarly s peer b pool key payload shares offer law r t.beacon_bytes before.early
          (beacon_read b pool key payload offer law t before.tx) in
      let send' : Send = record send { tx = wrap t } in
      let step =
        watch_step send send' (record { robust = true; bytes = t.beacon_bytes }) r r' result
          capacity capacities (next_frame_due b pool payload send capacity before.tx turn) reads in
      let place = here_lem t.cursor (length pool) (filled t before.tx) in
      (
        r',
        step ∙ ap (λ k. later result k (watch capacities send' r')) told,
        record {
          tx = wrap-Streams b pool key payload offer law t before.tx;
          held = before.held;
          inside = filled t before.tx;
          cursor = place;
          works = works;
          known = λ j low high. absurd (omega arith);
        },
      )
    where
      later : IngestResult → Kind → Option Bytes → Option Bytes
      later result kind rest = finished_or (ok (record result { kind = kind })) rest

  -- Packets come first, and are put aside.
  first_packets :
      (send : Send) (r : Receive) (capacity : ℕ) (capacities : List ℕ)
      → IsBefore send r
      → send.tx.frame_id % 15 ≢ 0
      → let n = max (packets_per_frame capacity send.tx.packet_len) 1 in
        let send' : Send = record send { tx = advance send.tx n } in
        (r' : Receive) × (watch (capacity ∷ capacities) send r ≡ watch capacities send' r')
        × IsBefore send' r'
  unfolding advance
  first_packets send r capacity capacities before turn =
      let t = send.tx in
      let n = max (packets_per_frame capacity t.packet_len) 1 in
      let send' : Send = record send { tx = advance t n } in
      let sf = symbols t n in
      let (read, _, from) =
        symbols_read b pool payload t n before.tx (next_frame_at_le capacity t.packet_len) in
      let (result, r', reads, told, early) =
        symbol-IsEarly s peer b pool key payload shares offer law r (Symbol.encode sf) sf
          before.early read from in
      let step =
        watch_step send send' (record { robust = false; bytes = Symbol.encode sf }) r r' result
          capacity capacities
          (next_frame_symbol b pool payload send capacity before.tx before.held turn) reads in
      (
        r',
        step ∙ ap (λ k. later result k (watch capacities send' r')) told,
        record {
          tx = advance-Streams b pool key payload offer law t n before.tx;
          held = before.held;
          early = early;
        },
      )
    where
      later : IngestResult → Kind → Option Bytes → Option Bytes
      later result kind rest = finished_or (ok (record result { kind = kind })) rest

  -- The beacon is `wait` frames away.
  watch_before :
      (capacities : List ℕ) (wait : ℕ) (send : Send) (r : Receive)
      → IsBefore send r
      → (send.tx.frame_id + wait) % 15 ≡ 0
      → send.tx.frame_id + wait < 256 ^ 4
      → wait + 3 * length pool + 3 ≤ length capacities
      → watch capacities send r ≡ some payload
  unfolding wrap advance
  watch_before [] wait send r before turn lt enough = absurd (omega arith)
  watch_before (capacity ∷ capacities) wait send r before turn lt enough =
      let t = send.tx in
      let n = max (packets_per_frame capacity t.packet_len) 1 in
      elim (Bool-cases (t.frame_id % 15 == 0)) [
        | inl due ↦
            let (r', step, on) = first_beacon send r capacity capacities before (ground arith) in
            step
            ∙ watch-IsOn b pool key payload offer law capacities t.cursor 0
                (record send { tx = wrap t }) r' on (inl (omega arith))
        | inr other ↦
            let apart : t.frame_id % 15 ≢ 0 = λ e. ground arith in
            let (r', step, before') = first_packets send r capacity capacities before apart in
            let more : 1 ≤ wait = omega arith in
            let next : (t.frame_id + 1) % 256 ^ 4 ≡ t.frame_id + 1 = mod-eq_of_lt (omega arith) in
            step
            ∙ watch_before capacities (wait - 1) (record send { tx = advance t n }) r' before'
                (omega arith) (omega arith) (omega arith)
      ]

  -- Wherever the exchange got, a released sender needs no more frames than these.
  pub underway-watch :
      (send : Send) (r : Receive) (capacities : List ℕ)
      → IsUnderway s peer b pool key payload shares offer law send r
      → send.tx.held ≡ false
      → 3 * length pool + 17 ≤ length capacities
      → (r.rx.done ≡ true) ⊎ (watch capacities send r ≡ some payload)
  underway-watch send r capacities x free enough = elim x.stage [
    | inl early ↦
        let id = send.tx.frame_id in
        let lt = x.tx.sends.valid.frame_id in
        inr (
          watch_before capacities (14 - (id + 14) % 15) send r
            (record { tx = x.tx; held = free; early = early }) (omega arith) (omega arith)
            (omega arith))
    | inr (inl works) ↦
        let lt = filled send.tx x.tx in
        inr (
          watch-IsOn b pool key payload offer law capacities send.tx.cursor 0 send r
            (record {
              tx = x.tx;
              held = free;
              inside = lt;
              cursor = here_lem send.tx.cursor (length pool) lt;
              works = works;
              known = λ j low high. absurd (omega arith);
            })
            (inl (omega arith)))
    | inr (inr finished) ↦ inl finished
  ]
