-- ===== src/Harness/Lossless.antt =====
-- harness/src/main.rs: where every frame is read, a run converges.
use rabaska.Prelude.{
  ℕ, ◌+◌, ◌%◌, ◌^◌, ◌≡◌, ◌≢◌, ◌≤◌, ◌<◌, ◌⊎◌, max, inl, inr, refl, sym, ap, subst, ◌∙◌, true, false,
  ◌||◌, List, length, All, ◌==◌, Bool-cases, arith,
}
use native.Mathlib.Nat.{mod-eq_of_lt, le-max_right}
use rabaska.Prelude.Bytes.{Bytes, slice}
use rabaska.Error.{Result, ok}
use rabaska.Floats.{Floats}
use rabaska.Wire.Frame.{Crc}
use rabaska.Wire.Beacon
use rabaska.Wire.Beacon.{Beacon}
use rabaska.Wire.Beacon.RoundTrip as BeaconTrip
use rabaska.Wire.Symbol
use rabaska.Wire.Symbol.{packets_per_frame}
use rabaska.Wire.Symbol.RoundTrip as SymbolTrip
use rabaska.Crypto.Primitives.{Primitives}
use rabaska.Pipeline.Services.{Deflate, Fountain}
use rabaska.Pipeline.Transmitter.{
  Transmitter, OpticalFrame, beacon_frame, symbol_frame, frame_bytes, next_frame_at,
}
use rabaska.Pipeline.Transmitter.Validity.{
  window, wrap, advance, symbols, beacon_step, symbol_step, next_frame_at_le, symbols-IsWellFormed,
}
use rabaska.Pipeline.Receiver.{Receiver, Ingest, ingest}
use rabaska.Pipeline.Transfer.{IsFrom, Offers}
use rabaska.Pipeline.Transfer.Completing.{Completes, Knows}
use rabaska.Pipeline.Transfer.Showing.{
  Works, DeliversOrKnows, KnowsUpTo, ingest_symbol-Works, ingest_beacon-Works, window-KnowsUpTo,
  KnowsUpTo-lt,
}
use rabaska.Pipeline.Transfer.Sending.{Sends, wrap-Sends, advance-Sends, window-IsFrom}
use rabaska.Harness.{
  Rung, Lighting, did_not_converge, World, Round, goes_on, ends, next_f64, read_probability,
  confirm, receive, show, round,
}
use rabaska.Harness.Rounds.{get_elem?-some}

-- No frame is lost, whatever is drawn.
abbrev pub IsLossless : ⦃f : Floats⦄ → Lighting → Type 0
IsLossless ⦃f⦄ light =
    (rung : Rung) (frame : OpticalFrame) (state : ℕ)
    → f.lt (read_probability light rung frame) (next_f64 state).1 ≡ false

module _ ⦃crc : Crc⦄ ⦃prim : Primitives⦄ ⦃deflate : Deflate⦄ ⦃fountain : Fountain⦄
    ⦃f : Floats⦄ where
  confirm-ne :
      (tx : Transmitter) (rx : Receiver) (i : ℕ) (payload plaintext : Bytes)
      → confirm tx rx i payload plaintext ≢ did_not_converge
  unfolding confirm
  confirm-ne tx rx i payload plaintext h = ground arith

  -- A frame that is not lost.
  pub show_read :
      (light : Lighting) (w : World) (i : ℕ) (payload : Bytes) (rung : Rung) (frame : OpticalFrame)
      → IsLossless light
      → show light w i payload rung frame
        ≡ receive
            (record w { rng = (next_f64 w.rng).0 })
            i
            payload
            (ingest w.rx (frame_bytes frame))
  unfolding show
  show_read light w i payload rung frame clear = rw (show, clear rung frame w.rng)

module _ ⦃crc : Crc⦄ ⦃prim : Primitives⦄ ⦃deflate : Deflate⦄ ⦃fountain : Fountain⦄ ⦃f : Floats⦄
    (b : Beacon) (pool : List Bytes) (key payload : Bytes) (offer : Offers b pool key payload)
    (law : Completes b.oti offer.object pool) where
  -- After `i` frames, the first `k` packets of the pool are across and the next one is the next to be sent.
  pub record IsAt (i k : ℕ) (w : World) : Type 0 where
    pub tx : Sends b pool payload w.tx
    pub held : w.tx.held ≡ false
    pub interval : w.tx.beacon_interval ≡ 15
    pub frame_id : w.tx.frame_id ≡ i
    pub cursor : w.tx.cursor ≡ k
    pub rx : Works b pool key payload offer law w.rx
    pub known : KnowsUpTo b pool key payload offer law k w.rx

  pub pool_filled : (i k : ℕ) (w : World) → IsAt i k w → 0 < length pool
  pool_filled i k w at =
      subst (λ ps. 0 < length ps) at.tx.packets (let c = at.tx.valid.cursor in omega arith)

  -- A round ends, or takes the transfer further: past a packet, unless it was a beacon's turn.
  abbrev pub TakesOn : ℕ → ℕ → Round → Type 0
  TakesOn i k (ends o) = o ≢ did_not_converge
  TakesOn i k (goes_on w) = (k' : ℕ) × IsAt (i + 1) k' w × (((i % 15 ≡ 0) × (k' ≡ k)) ⊎ (k < k'))

  module _ (schedule : List Rung) (light : Lighting) (pos : 0 < length schedule)
      (clear : IsLossless light) where
    beacon_round :
        (i k : ℕ) (w : World) (rung : Rung)
        → IsAt i k w
        → i + 1 < 256 ^ 4
        → i % 15 ≡ 0
        → (w.tx.held || w.tx.frame_id % w.tx.beacon_interval == 0) ≡ true
        → TakesOn i k (
            show light
              (record w { tx = wrap w.tx })
              i
              payload
              rung
              (beacon_frame w.tx.beacon_bytes))
    unfolding frame_bytes receive wrap
    beacon_round i k w rung at small turn due =
        let s = at.tx in
        let w' : World = record w { tx = wrap w.tx } in
        let read : Beacon.decode w.tx.beacon_bytes ≡ ok b =
          ap Beacon.decode s.valid.beacon_bytes
          ∙ BeaconTrip.decode-encode w.tx.beacon s.valid.beacon
          ∙ ap ok s.beacon in
        let step = show_read light w' i payload rung (beacon_frame w.tx.beacon_bytes) clear in
        let heard =
          ingest_beacon-Works b pool key payload offer law w.rx w.tx.beacon_bytes at.rx read in
        let w'' : World = record w' { rng = (next_f64 w.rng).0 } in
        let at' : IsAt (i + 1) k w'' = record {
          tx = wrap-Sends b pool payload w.tx s;
          held = at.held;
          interval = at.interval;
          frame_id = ap (λ n. (n + 1) % 256 ^ 4) at.frame_id ∙ mod-eq_of_lt small;
          cursor = at.cursor;
          rx = at.rx;
          known = at.known;
        } in
        subst (TakesOn i k) (sym (step ∙ ap (receive w'' i payload) heard))
          (k, at', inl (turn, refl))

    heard-TakesOn :
        (i k : ℕ) (w : World) (n rng : ℕ) (rx : Receiver) (r : Result Ingest)
        → IsAt i k w
        → i + 1 < 256 ^ 4
        → 1 ≤ n
        → DeliversOrKnows b pool key payload offer law w.rx
            (window n w.tx.packets w.tx.cursor)
            (rx, r)
        → TakesOn i k (receive (record w { tx = advance w.tx n; rng = rng }) i payload (rx, r))
    unfolding receive advance
    heard-TakesOn i k w n rng rx r at small one (inl (delivered, _)) =
        let w' : World = record w { tx = advance w.tx n; rng = rng } in
        subst (λ q. TakesOn i k (receive w' i payload (rx, q))) (sym delivered)
          (confirm-ne (advance w.tx n) rx i payload payload)
    heard-TakesOn i k w n rng rx r at small one (inr ((_, _, going), works, keeps, shown)) =
        let w' : World = record w { tx = advance w.tx n; rng = rng } in
        let s = at.tx in
        let filled = pool_filled i k w at in
        let shown' : All (Knows b pool key rx) (window n pool k) =
          subst (λ ps. All (Knows b pool key rx) (window n ps k)) s.packets
            (subst (λ c. All (Knows b pool key rx) (window n w.tx.packets c)) at.cursor shown) in
        let known =
          window-KnowsUpTo b pool key payload offer law w.rx rx n k keeps at.known shown' in
        let lt = KnowsUpTo-lt b pool key payload offer law rx (k + n) filled works known in
        let at' : IsAt (i + 1) (k + n) (record w' { rx = rx }) = record {
          tx = advance-Sends b pool payload w.tx n s;
          held = at.held;
          interval = at.interval;
          frame_id = ap (λ m. (m + 1) % 256 ^ 4) at.frame_id ∙ mod-eq_of_lt small;
          cursor =
              ap (λ c. (c + n) % length w.tx.packets) at.cursor
              ∙ ap (λ ps. (k + n) % length ps) s.packets
              ∙ mod-eq_of_lt lt;
          rx = works;
          known = known;
        } in
        subst (λ q. TakesOn i k (receive w' i payload (rx, q))) (sym going)
          (k + n, at', inr (omega arith))

    symbol_round :
        (i k : ℕ) (w : World) (rung : Rung) (n : ℕ)
        → IsAt i k w
        → i + 1 < 256 ^ 4
        → 1 ≤ n
        → n ≤ 255
        → TakesOn i k (
            show light
              (record w { tx = advance w.tx n })
              i
              payload
              rung
              (symbol_frame (Symbol.encode (symbols w.tx n))))
    unfolding frame_bytes
    symbol_round i k w rung n at small one le =
        let s = at.tx in
        let t = w.tx in
        let sf = symbols t n in
        let frame = Symbol.encode sf in
        let w' : World = record w { tx = advance t n } in
        let filled : 0 < length t.packets = (let c = s.valid.cursor in omega arith) in
        let read = SymbolTrip.decode-encode sf (symbols-IsWellFormed t n s.valid le) in
        let from : All (IsFrom pool) sf.packets =
          subst (λ ps. All (IsFrom ps) (window n t.packets t.cursor)) s.packets
            (window-IsFrom n t.packets t.cursor filled) in
        let step = show_read light w' i payload rung (symbol_frame frame) clear in
        let heard =
          ingest_symbol-Works b pool key payload offer law w.rx frame sf at.rx read
            (ap (λ u. slice 0 4 u.session_id) s.beacon) from in
        subst (TakesOn i k) (sym step) (
          heard-TakesOn i k w n (next_f64 w.rng).0 (ingest w.rx frame).0 (ingest w.rx frame).1 at
            small one heard)

    pub round-TakesOn :
        (i k : ℕ) (w : World)
        → IsAt i k w
        → i + 1 < 256 ^ 4
        → TakesOn i k (round schedule light payload i w)
    unfolding round next_frame_at
    round-TakesOn i k w at small =
        let (rung, found) = get_elem?-some schedule (i % length schedule) (omega arith) in
        let n = max (packets_per_frame rung.capacity w.tx.packet_len) 1 in
        let held = at.held in
        let turn : w.tx.frame_id % w.tx.beacon_interval ≡ i % 15 =
          ap (λ m. m % w.tx.beacon_interval) at.frame_id ∙ ap (λ m. i % m) at.interval in
        elim (Bool-cases (w.tx.held || w.tx.frame_id % w.tx.beacon_interval == 0)) [
          | inl due ↦
              let sent = beacon_step w.tx n at.tx.valid due in
              let now : w.tx.frame_id % w.tx.beacon_interval ≡ 0 = ground arith in
              let step : round schedule light payload i w
                  ≡ show light (record w { tx = wrap w.tx }) i payload rung
                      (beacon_frame w.tx.beacon_bytes) =
                rw (round, found, sent) in
              subst (TakesOn i k) (sym step) (beacon_round i k w rung at small (sym turn ∙ now) due)
          | inr symbol ↦
              let sent = symbol_step w.tx n at.tx.valid symbol in
              let step : round schedule light payload i w
                  ≡ show light (record w { tx = advance w.tx n }) i payload rung
                      (symbol_frame (Symbol.encode (symbols w.tx n))) =
                rw (round, found, sent) in
              subst (TakesOn i k) (sym step) (
                symbol_round i k w rung n at small
                  (le-max_right (packets_per_frame rung.capacity w.tx.packet_len) 1)
                  (next_frame_at_le rung.capacity w.tx.packet_len))
        ]
