-- ===== src/Pipeline/Receiver/Refusals.antt =====
-- core/src/pipeline.rs: the panics of the fountain crate inside `ingest`, for which a beacon's transmission
-- information and a frame's packets are handed to it as they came.
use rabaska.Prelude.{
  ◌≡◌, ◌≤◌, ◌⊎◌, inl, inr, refl, ap, Option, none, some, Bool, true, false, List, [], ◌∷◌, ◌++◌,
  length, ltb, ltb-false→le, if◌then◌else◌, ◌==◌, Bool-cases, Option-cases, arith,
}
use rabaska.Prelude.Bytes.{Bytes, slice, bytes_eq, bytes_eq→eq}
use rabaska.Error.{Result, ok, err, panic, Result-cases}
use rabaska.Wire.Types.{beacon_type, symbol_type}
use rabaska.Wire.Frame.{Crc, peek_type}
use rabaska.Wire.Beacon
use rabaska.Wire.Beacon.{Beacon}
use rabaska.Wire.Symbol
use rabaska.Crypto.Primitives.{Primitives}
use rabaska.Pipeline.Services.{Deflate, Fountain}
use rabaska.Pipeline.Receiver.{Receiver, Ingest, id_of, contains, of_session, absorb_packet, ingest}

-- The calls that panic: `Decoder::new` on transmission information, and `decode` on a packet.
pub record Refusals ⦃fountain : Fountain⦄ : Type 0 where
  pub oti : Bytes → Bool
  pub packet : fountain.Decoder → Bytes → Bool

module _ ⦃fountain : Fountain⦄ (refusals : Refusals) where
  -- A decoder that has finished is not called, nor is one for a packet that is short or known.
  unfoldable packet_panics : Bytes → Receiver → Option Bytes → Bool
  packet_panics raw r (some ct) = false
  packet_panics raw r none =
      if ltb (length raw) 4
      then false
      else if contains r.ids (id_of raw)
      then false
      else elim r.decoder [ none ↦ false | some dec ↦ refusals.packet dec raw ]

  -- In the loop of `absorb`.
  unfoldable absorb_panics : List Bytes → Receiver → Option Bytes → Bool
  unfolding packet_panics
  absorb_panics [] r finished = false
  absorb_panics (raw ∷ queued) r finished =
      if packet_panics raw r finished then true else elim (absorb_packet raw r finished) [
        | ok p ↦ absorb_panics queued p.0 p.1
        | err e ↦ false
        | panic ↦ false
      ]

  unfoldable beacon_panics : Receiver → Beacon → Bool
  beacon_panics r b = elim r.beacon [ none ↦ refusals.oti b.oti | some existing ↦ false ]

  unfoldable symbol_panics : Receiver → Symbol.SymbolFrame → Bool
  unfolding absorb_panics of_session bytes_eq
  symbol_panics r sf = elim r.beacon [
    | none ↦ false
    | some b ↦
        if bytes_eq sf.sid4 (slice 0 4 b.session_id)
        then absorb_panics (of_session (slice 0 4 b.session_id) r.pending ++ sf.packets)
            (record r { pending = [] }) none
        else false
  ]

  module _ ⦃crc : Crc⦄ where
    unfoldable pub crate_panics : Receiver → Bytes → Bool
    unfolding beacon_panics symbol_panics
    crate_panics r frame = if r.done then false else elim (peek_type frame) [
      | err e ↦ false
      | panic ↦ false
      | ok ty ↦
          if ty == beacon_type
          then elim (Beacon.decode frame) [
            | ok b ↦ beacon_panics r b
            | err e ↦ false
            | panic ↦ false
          ]
          else if ty == symbol_type
          then elim (Symbol.decode frame) [
            | ok sf ↦ symbol_panics r sf
            | err e ↦ false
            | panic ↦ false
          ]
          else false
    ]

  -- `ingest` with a crate that panics. What it leaves behind then is not looked at again.
  module _ ⦃crc : Crc⦄ ⦃prim : Primitives⦄ ⦃deflate : Deflate⦄ where
    unfoldable pub ingest_or_panic : Receiver → Bytes → Receiver × Result Ingest
    unfolding crate_panics
    ingest_or_panic r frame = if crate_panics r frame then (r, panic) else ingest r frame

  -- A beacon's transmission information is refused, where there was no beacon yet.
  abbrev pub RefusesOti : ⦃crc : Crc⦄ → Receiver → Bytes → Type 0
  RefusesOti r frame =
      (b : Beacon) × (Beacon.decode frame ≡ ok b) × (r.beacon ≡ none) × (refusals.oti b.oti ≡ true)

  -- A packet of the queue is refused, of four bytes at least.
  abbrev pub RefusesOneOf : List Bytes → Type 0
  RefusesOneOf queued =
      (front : List Bytes) × (raw : Bytes) × (back : List Bytes) × (dec : fountain.Decoder)
      × (queued ≡ front ++ raw ∷ back)
      × (4 ≤ length raw)
      × (refusals.packet dec raw ≡ true)

  -- A packet is refused that came with this frame of the session, or waited for the session.
  abbrev pub RefusesPacket : ⦃crc : Crc⦄ → Receiver → Bytes → Type 0
  RefusesPacket r frame =
      (b : Beacon) × (sf : Symbol.SymbolFrame) × (r.beacon ≡ some b)
      × (Symbol.decode frame ≡ ok sf)
      × (sf.sid4 ≡ slice 0 4 b.session_id)
      × RefusesOneOf (of_session (slice 0 4 b.session_id) r.pending ++ sf.packets)

  packet_panics-refuses :
      (raw : Bytes) (r : Receiver) (finished : Option Bytes)
      → packet_panics raw r finished ≡ true
      → (dec : fountain.Decoder) × (4 ≤ length raw) × (refusals.packet dec raw ≡ true)
  unfolding packet_panics
  packet_panics-refuses raw r (some ct) h = absurd (ground arith)
  packet_panics-refuses raw r none h = elim (Option-cases r.decoder) [
    | inl without ↦ absurd (ground arith)
    | inr (dec, there) ↦ (dec, ltb-false→le (length raw) 4 (ground arith), ground arith)
  ]

  absorb_panics-refuses :
      (queued : List Bytes) (r : Receiver) (finished : Option Bytes)
      → absorb_panics queued r finished ≡ true
      → RefusesOneOf queued
  unfolding absorb_panics
  absorb_panics-refuses [] r finished h = absurd (ground arith)
  absorb_panics-refuses (raw ∷ queued) r finished h =
      elim (Bool-cases (packet_panics raw r finished)) [
        | inl here ↦
            let (dec, long, refused) = packet_panics-refuses raw r finished here in
            ([], raw, queued, dec, refl, long, refused)
        | inr passed ↦ elim (Result-cases (absorb_packet raw r finished)) [
          | inl crash ↦ absurd (ground arith)
          | inr (inl (e, refused)) ↦ absurd (ground arith)
          | inr (inr (p, took)) ↦
              let (front, one, back, dec, e, long, refused) =
                absorb_panics-refuses queued p.0 p.1 (ground arith) in
              (raw ∷ front, one, back, dec, ap (λ q. raw ∷ q) e, long, refused)
        ]
      ]

  abbrev BeaconPanics : ⦃crc : Crc⦄ → Receiver → Bytes → Type 0
  BeaconPanics r frame = (b : Beacon) × (Beacon.decode frame ≡ ok b) × (beacon_panics r b ≡ true)

  abbrev SymbolPanics : ⦃crc : Crc⦄ → Receiver → Bytes → Type 0
  SymbolPanics r frame =
      (sf : Symbol.SymbolFrame) × (Symbol.decode frame ≡ ok sf) × (symbol_panics r sf ≡ true)

  module _ ⦃crc : Crc⦄ where
    crate_panics-cases :
        (r : Receiver) (frame : Bytes)
        → crate_panics r frame ≡ true
        → BeaconPanics r frame ⊎ SymbolPanics r frame
    unfolding crate_panics
    crate_panics-cases r frame h = elim (Result-cases (peek_type frame)) [
      | inl crash ↦ absurd (ground arith)
      | inr (inl (e, refused)) ↦ absurd (ground arith)
      | inr (inr (ty, peeked)) ↦ elim (Bool-cases (ty == beacon_type)) [
        | inl is_beacon ↦ elim (Result-cases (Beacon.decode frame)) [
          | inl crash ↦ absurd (ground arith)
          | inr (inl (e, refused)) ↦ absurd (ground arith)
          | inr (inr (b, read)) ↦ inl (b, read, ground arith)
        ]
        | inr no_beacon ↦ elim (Result-cases (Symbol.decode frame)) [
          | inl crash ↦ absurd (ground arith)
          | inr (inl (e, refused)) ↦ absurd (ground arith)
          | inr (inr (sf, read)) ↦ inr (sf, read, ground arith)
        ]
      ]
    ]

    BeaconPanics-refuses :
        (r : Receiver) (frame : Bytes) → BeaconPanics r frame → RefusesOti r frame
    unfolding beacon_panics
    BeaconPanics-refuses r frame (b, read, h) = elim (Option-cases r.beacon) [
      | inl without ↦ (b, read, without, ground arith)
      | inr (existing, present) ↦ absurd (ground arith)
    ]

    SymbolPanics-refuses :
        (r : Receiver) (frame : Bytes) → SymbolPanics r frame → RefusesPacket r frame
    unfolding symbol_panics
    SymbolPanics-refuses r frame (sf, read, h) = elim (Option-cases r.beacon) [
      | inl without ↦ absurd (ground arith)
      | inr (b, present) ↦ elim (Bool-cases (bytes_eq sf.sid4 (slice 0 4 b.session_id))) [
        | inr foreign ↦ absurd (ground arith)
        | inl own ↦ (
          b,
          sf,
          present,
          read,
          bytes_eq→eq sf.sid4 (slice 0 4 b.session_id) own,
          absorb_panics-refuses (of_session (slice 0 4 b.session_id) r.pending ++ sf.packets)
              (record r { pending = [] }) none (ground arith),
        )
      ]
    ]

    -- The crate panics on what came off the camera only.
    pub crate_panics-refuses :
        (r : Receiver) (frame : Bytes)
        → crate_panics r frame ≡ true
        → RefusesOti r frame ⊎ RefusesPacket r frame
    crate_panics-refuses r frame h = elim (crate_panics-cases r frame h) [
      | inl at_beacon ↦ inl (BeaconPanics-refuses r frame at_beacon)
      | inr at_symbol ↦ inr (SymbolPanics-refuses r frame at_symbol)
    ]
