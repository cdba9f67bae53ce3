-- ===== src/Handshake/Watching.antt =====
-- core/src/wasm.rs: the frames of a released sender, each of which is read.
pub mod Steps
pub mod Keyed
pub mod Early
use rabaska.Prelude.{
  ℕ, ◌+◌, ◌%◌, ◌^◌, ◌≡◌, ◌≢◌, ◌≤◌, ◌<◌, ◌⊎◌, max, inl, inr, refl, sym, ap, subst, ◌∙◌, Option, none,
  some, true, false, ◌||◌, ◌==◌, List, [], ◌∷◌, length, All, arith, ==_ne,
}
use native.Mathlib.Nat.{le-max_right, mod-add-mod}
use rabaska.Prelude.Bytes.{Bytes, slice}
use rabaska.Error.{Result, ok, err, panic}
use rabaska.Wire.Frame.{Crc}
use rabaska.Wire.Beacon
use rabaska.Wire.Beacon.{Beacon}
use rabaska.Wire.Beacon.RoundTrip as BeaconTrip
use rabaska.Wire.Symbol
use rabaska.Wire.Symbol.{packets_per_frame}
use rabaska.Wire.Symbol.RoundTrip as SymbolTrip
use rabaska.Crypto.Primitives.{Primitives}
use rabaska.Pipeline.Services.{Deflate, Fountain}
use rabaska.Pipeline.Transmitter as Tx
use rabaska.Pipeline.Transmitter.{Transmitter}
use rabaska.Pipeline.Transmitter.Validity.{
  window, wrap, advance, symbols, beacon_step, symbol_step, next_frame_at_le, symbols-IsWellFormed,
}
use rabaska.Pipeline.Receiver as Rx
use rabaska.Pipeline.Transfer.{IsFrom, Offers}
use rabaska.Pipeline.Transfer.Completing.{Completes, Knows}
use rabaska.Pipeline.Transfer.Showing.{
  Works, DeliversOrKnows, ingest_symbol-Works, ingest_beacon-Works,
}
use rabaska.Pipeline.Transfer.Cycling.{KnowsFrom, window-mod, window-KnowsFrom}
use rabaska.Pipeline.Transfer.Sending.{Sends, wrap-Sends, advance-Sends, window-IsFrom}
use rabaska.Handshake.{Send, FrameOut, next_frame}
use rabaska.Handshake.Receive as Receive
use rabaska.Handshake.Receive.{Receive, IngestResult, finished, reported}
use rabaska.Handshake.Exchange.{Streams}
use rabaska.Handshake.Exchange.Underway.{ingest_rx}

-- The payload of a result, if it has one, or what comes later.
abbrev pub finished_or : Result IngestResult → Option Bytes → Option Bytes
finished_or (ok result) later = elim result.kind [ finished ↦ result.payload | _ ↦ later ]
finished_or (err e) later = none
finished_or panic later = none

module _ ⦃crc : Crc⦄ ⦃prim : Primitives⦄ ⦃deflate : Deflate⦄ ⦃fountain : Fountain⦄ where
  -- The payload that a receiver hands out first, where it reads each frame that the sender shows at these
  -- capacities.
  unfoldable pub watch : List ℕ → Send → Receive → Option Bytes
  watch [] send r = none
  watch (capacity ∷ capacities) send r = elim (next_frame send capacity) [
    | ok shows ↦
        let x = Receive.ingest r shows.1.bytes in finished_or x.1 (watch capacities shows.0 x.0)
    | err e ↦ none
    | panic ↦ none
  ]

  pub watch_step :
      (send send' : Send) (f : FrameOut) (r r' : Receive) (result : IngestResult) (capacity : ℕ)
      (capacities : List ℕ)
      → next_frame send capacity ≡ ok (send', f)
      → Receive.ingest r f.bytes ≡ (r', ok result)
      → watch (capacity ∷ capacities) send r ≡ finished_or (ok result) (watch capacities send' r')
  unfolding watch
  watch_step send send' f r r' result capacity capacities shows reads =
      rw (watch, shows) (ap (λ x. finished_or x.1 (watch capacities send' x.0)) reads)

module _ ⦃crc : Crc⦄ ⦃prim : Primitives⦄ ⦃deflate : Deflate⦄ ⦃fountain : Fountain⦄ (b : Beacon)
    (pool : List Bytes) (payload : Bytes) where
  -- A released sender whose turn it is to show the beacon, or packets.
  pub next_frame_due :
      (send : Send) (capacity : ℕ)
      → Streams b pool payload send.tx
      → send.tx.frame_id % 15 ≡ 0
      → next_frame send capacity
        ≡ ok (
          record send { tx = wrap send.tx },
          record { robust = true; bytes = send.tx.beacon_bytes },
        )
  unfolding next_frame Tx.next_frame_at
  next_frame_due send capacity streams turn =
      let t = send.tx in
      let every = streams.interval in
      let due : (t.held || t.frame_id % t.beacon_interval == 0) ≡ true = ground arith in
      rw (beacon_step t (max (packets_per_frame capacity t.packet_len) 1) streams.sends.valid due)
        refl

  pub next_frame_symbol :
      (send : Send) (capacity : ℕ)
      → Streams b pool payload send.tx
      → send.tx.held ≡ false
      → send.tx.frame_id % 15 ≢ 0
      → let n = max (packets_per_frame capacity send.tx.packet_len) 1 in
        next_frame send capacity
        ≡ ok (
          record send { tx = advance send.tx n },
          record { robust = false; bytes = Symbol.encode (symbols send.tx n) },
        )
  unfolding next_frame Tx.next_frame_at
  next_frame_symbol send capacity streams free turn =
      let t = send.tx in
      let every = streams.interval in
      let due : (t.held || t.frame_id % t.beacon_interval == 0) ≡ false = ground arith in
      rw (symbol_step t (max (packets_per_frame capacity t.packet_len) 1) streams.sends.valid due)
        refl

  -- What a receiver reads off the packets.
  pub symbols_read :
      (t : Transmitter) (n : ℕ)
      → Streams b pool payload t
      → n ≤ 255
      → (Symbol.decode (Symbol.encode (symbols t n)) ≡ ok (symbols t n))
        × ((symbols t n).sid4 ≡ slice 0 4 b.session_id)
        × All (IsFrom pool) (symbols t n).packets
  symbols_read t n streams le =
      let s = streams.sends in
      (
        SymbolTrip.decode-encode (symbols t n) (symbols-IsWellFormed t n s.valid le),
        ap (λ u. slice 0 4 u.session_id) s.beacon,
        subst (λ ps. All (IsFrom ps) (window n t.packets t.cursor)) s.packets
            (window-IsFrom n t.packets t.cursor (let k = s.valid.cursor in omega arith)),
      )
