-- ===== src/Pipeline/Receiver/Contract/Refinement.antt =====
-- core/src/pipeline.rs: `ingest` keeps the receiver's contract.
use rabaska.Prelude.{
  ◌≡◌, refl, sym, ap, subst, ◌∙◌, Option, none, some, true, false, List, [], ◌++◌, ◌==◌, Bool-cases,
  Option-cases, inl, inr, arith,
}
use rabaska.Prelude.Bytes.{Bytes, slice, bytes_eq, bytes_eq→eq}
use rabaska.Error.{Result, ok, err, panic, Result-cases, foreign_session, bad_frame_type}
use rabaska.Wire.Types.{beacon_type, symbol_type}
use rabaska.Wire.Frame.{Crc, peek_type}
use rabaska.Wire.Beacon
use rabaska.Wire.Beacon.{Beacon}
use rabaska.Wire.Symbol
use rabaska.Crypto.Primitives.{Primitives}
use rabaska.Pipeline.Services.{Deflate, Fountain}
use rabaska.Pipeline.Receiver.{
  Receiver, Ingest, ignored, beacon_acquired, progress, done, of_session, symbols_needed, hold,
  restore, set_key, open_object, conclude, absorb, ingest_beacon, ingest_symbol, ingest,
}
use rabaska.Pipeline.Receiver.Invariant.{IsValid, held-IsValid, absorb_step, open_object-ne-panic}
use rabaska.Pipeline.Receiver.Methods.{peek_type-ne-panic, beacon_decode-ne-panic}
use rabaska.Pipeline.Receiver.Contract.{
  view, Gathers, no_type, no_beacon, no_symbols, other_type, Hears, refuse, crash, acquire, again,
  other_beacon, keep, other_symbols, gather, deliver, fail, Step, sleep, wake, Restores,
}
use rabaska.Pipeline.Receiver.Contract.Learning.{Learns, absorb_all-Learns}
use rabaska.Pipeline.Receiver.Contract.Sets.{
  bytes_eq-ne, ==→eq, received-Counts, hold-Holds, restore-Restores, Learns-Gathers,
}

module _ ⦃crc : Crc⦄ ⦃prim : Primitives⦄ ⦃deflate : Deflate⦄ ⦃fountain : Fountain⦄ where
  -- What `ingest` or an arm of it left keeps the contract.
  abbrev Keeps : Bytes → Receiver → Receiver × Result Ingest → Type 0
  Keeps frame r x = Hears frame (view r) x.1 (view x.0)

  ingest_beacon-Keeps :
      (r : Receiver) (frame : Bytes) (b : Beacon)
      → Beacon.decode frame ≡ ok b
      → Keeps frame r (ingest_beacon r b)
  unfolding ingest_beacon
  ingest_beacon-Keeps r frame b read = elim (Option-cases r.beacon) [
    | inl without ↦
        let r' : Receiver = record r {
          needed = symbols_needed (fountain.transfer_length b.oti) (fountain.symbol_size b.oti);
          decoder = some (fountain.new_decoder b.oti);
          beacon = some b;
        } in
        let step : ingest_beacon r b ≡ (r', ok beacon_acquired) = ground arith in
        subst (Keeps frame r) (sym step) (acquire read without)
    | inr (old, present) ↦ elim (Bool-cases (bytes_eq old.session_id b.session_id)) [
      | inl same ↦
          let step : ingest_beacon r b ≡ (r, ok ignored) = ground arith in
          subst (Keeps frame r) (sym step)
            (again read present (bytes_eq→eq old.session_id b.session_id same))
      | inr differ ↦
          let step : ingest_beacon r b ≡ (r, err foreign_session) = ground arith in
          subst (Keeps frame r) (sym step)
            (other_beacon read present (bytes_eq-ne old.session_id b.session_id differ))
    ]
  ]

  -- The end of `absorb`, after the loop has learnt the packets.
  conclude-Keeps :
      (r : Receiver) (frame : Bytes) (b : Beacon) (sf : Symbol.SymbolFrame)
      (p : Receiver × Option Bytes)
      → r.done ≡ false
      → Symbol.decode frame ≡ ok sf
      → r.beacon ≡ some b
      → sf.sid4 ≡ slice 0 4 b.session_id
      → Learns
          (record r { pending = [] })
          (of_session (slice 0 4 b.session_id) r.pending ++ sf.packets)
          p.0
      → Keeps frame r (conclude b p)
  unfolding conclude
  conclude-Keeps r frame b sf (r', found) open_still read present own l =
      let gathers = Learns-Gathers r r' b sf l in
      let counts = received-Counts r' l.valid in
      let open_then : r'.done ≡ false = l.done ∙ open_still in
      let waiting : Keeps frame r (r', ok (progress r'.received r'.needed)) =
        subst (λ m. Hears frame (view r) (ok (progress r'.received m)) (view r')) (sym l.needed)
          (gather read present own gathers counts open_then) in
      elim (Option-cases found) [
        | inl nothing ↦
            let step : conclude b (r', found) ≡ (r', ok (progress r'.received r'.needed)) =
              ground arith in
            subst (Keeps frame r) (sym step) waiting
        | inr (object, got) ↦ elim (Option-cases r'.key) [
          | inl without ↦
              let step : conclude b (r', found) ≡ (r', ok (progress r'.received r'.needed)) =
                ground arith in
              subst (Keeps frame r) (sym step) waiting
          | inr (key, keyed) ↦ elim (Result-cases (open_object b key object)) [
            | inl crashed ↦ absurd (open_object-ne-panic b key object crashed)
            | inr (inl (e, refused)) ↦
                let step : conclude b (r', found) ≡ (r', err e) = ground arith in
                subst (Keeps frame r) (sym step)
                  (fail object read present own gathers (sym l.key ∙ keyed) refused open_then)
            | inr (inr (plaintext, opens)) ↦
                let step : conclude b (r', found)
                    ≡ (record r' { done = true }, ok (done plaintext)) =
                  ground arith in
                let gathers' : Gathers b (view r) sf (view (record r' { done = true })) = record {
                  beacon = gathers.beacon;
                  key = gathers.key;
                  held = gathers.held;
                  known = gathers.known;
                  needed = gathers.needed;
                } in
                subst (Keeps frame r) (sym step)
                  (deliver object read present own gathers' (sym l.key ∙ keyed) opens refl)
          ]
        ]
      ]

  ingest_symbol-Keeps :
      (r : Receiver) (frame : Bytes) (sf : Symbol.SymbolFrame)
      → IsValid r
      → r.done ≡ false
      → Symbol.decode frame ≡ ok sf
      → Keeps frame r (ingest_symbol r sf)
  unfolding ingest_symbol
  ingest_symbol-Keeps r frame sf v open_still read = elim (Option-cases r.beacon) [
    | inl without ↦
        let step : ingest_symbol r sf ≡ (hold r sf.sid4 sf.packets, ok ignored) = ground arith in
        subst (Keeps frame r) (sym step)
          (keep read without (hold-Holds r sf.sid4 sf.packets without))
    | inr (b, present) ↦ elim (Bool-cases (bytes_eq sf.sid4 (slice 0 4 b.session_id))) [
      | inr differ ↦
          let step : ingest_symbol r sf ≡ (r, err foreign_session) = ground arith in
          subst (Keeps frame r) (sym step)
            (other_symbols read present (bytes_eq-ne sf.sid4 (slice 0 4 b.session_id) differ))
      | inl same ↦
          let queued = of_session (slice 0 4 b.session_id) r.pending ++ sf.packets in
          let (p, run, l) =
            absorb_all-Learns queued (record r { pending = [] }) none (held-IsValid r [] v)
              present in
          let inner : ingest_symbol r sf ≡ absorb r sf.packets = ground arith in
          subst (Keeps frame r) (sym (inner ∙ absorb_step r sf.packets present run)) (
            conclude-Keeps r frame b sf p open_still read present
              (bytes_eq→eq sf.sid4 (slice 0 4 b.session_id) same) l)
    ]
  ]

  ingest_awake :
      (r : Receiver) (frame : Bytes) → IsValid r → r.done ≡ false → Keeps frame r (ingest r frame)
  unfolding ingest
  ingest_awake r frame v open_still = elim (Result-cases (peek_type frame)) [
    | inl crashed ↦ absurd (peek_type-ne-panic frame crashed)
    | inr (inl (e, refused)) ↦
        let step : ingest r frame ≡ (r, err e) = ground arith in
        subst (Keeps frame r) (sym step) (refuse (no_type refused))
    | inr (inr (ty, peeked)) ↦ elim (Bool-cases (ty == beacon_type)) [
      | inl is_beacon ↦ elim (Result-cases (Beacon.decode frame)) [
        | inl crashed ↦ absurd (beacon_decode-ne-panic frame crashed)
        | inr (inl (e, refused)) ↦
            let step : ingest r frame ≡ (r, err e) = ground arith in
            subst (Keeps frame r) (sym step)
              (refuse (no_beacon (peeked ∙ ap ok (==→eq ty beacon_type is_beacon)) refused))
        | inr (inr (b, read)) ↦
            let step : ingest r frame ≡ ingest_beacon r b = ground arith in
            subst (Keeps frame r) (sym step) (ingest_beacon-Keeps r frame b read)
      ]
      | inr no_beacon_type ↦ elim (Bool-cases (ty == symbol_type)) [
        | inl is_symbol ↦ elim (Result-cases (Symbol.decode frame)) [
          | inl crashed ↦
              let step : ingest r frame ≡ (r, panic) = ground arith in
              subst (Keeps frame r) (sym step) (crash crashed)
          | inr (inl (e, refused)) ↦
              let step : ingest r frame ≡ (r, err e) = ground arith in
              subst (Keeps frame r) (sym step)
                (refuse (no_symbols (peeked ∙ ap ok (==→eq ty symbol_type is_symbol)) refused))
          | inr (inr (sf, read)) ↦
              let step : ingest r frame ≡ ingest_symbol r sf = ground arith in
              subst (Keeps frame r) (sym step) (ingest_symbol-Keeps r frame sf v open_still read)
        ]
        | inr no_symbol_type ↦
            let step : ingest r frame ≡ (r, err (bad_frame_type ty)) = ground arith in
            subst (Keeps frame r) (sym step)
              (refuse (other_type peeked (λ e. ground arith) (λ e. ground arith)))
      ]
    ]
  ]

  ingest-Step :
      (r : Receiver) (frame : Bytes)
      → IsValid r
      → Step frame (view r) (ingest r frame).1 (view (ingest r frame).0)
  unfolding ingest
  ingest-Step r frame v = elim (Bool-cases r.done) [
    | inr open_still ↦ wake open_still (ingest_awake r frame v open_still)
    | inl finished ↦
        let step : ingest r frame ≡ (r, ok ignored) = ground arith in
        subst (λ x. Step frame (view r) x.1 (view x.0)) (sym step) (sleep finished)
  ]

  -- Seen as the sets of the packets that it knows and of those that wait for their session, a valid receiver takes
  -- with each frame a step of its contract, which counts the distinct packets that it knows and delivers only what
  -- opens; set_key changes the key only; and restore puts packets aside, or nothing if they are of another session
  -- than the beacon's.
  pub receiver-Refines :
      (r : Receiver)
      → IsValid r
      → ((frame : Bytes) → Step frame (view r) (ingest r frame).1 (view (ingest r frame).0))
        × ((key : Bytes) → view (set_key r key) ≡ record (view r) { key = some key })
        × ((session_id : Bytes) (packets : List Bytes)
            → Restores session_id packets (view r) (view (restore r session_id packets)))
  unfolding set_key
  receiver-Refines r v = (
    λ frame. ingest-Step r frame v,
    λ key. refl,
    λ session_id packets. restore-Restores r session_id packets,
  )
