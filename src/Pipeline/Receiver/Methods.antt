-- ===== src/Pipeline/Receiver/Methods.antt =====
-- core/src/pipeline.rs: what a caller of the receiver can rely on after any method.
use rabaska.Prelude.{ℕ, ◌≡◌, ◌≢◌, ◌⊎◌, inl, inr, some, Bool-cases, List, arith}
use rabaska.Prelude.Bytes.{Bytes, byte_at}
use rabaska.Error.{panic, >>=-eq-panic, Result-cases}
use rabaska.Wire.Types.{beacon_len, beacon_type, mode_from_u8}
use rabaska.Wire.Frame.{Crc, peek_type, open_frame, open_frame-ne-panic}
use rabaska.Wire.Beacon
use rabaska.Wire.Symbol
use rabaska.Crypto.Primitives.{Primitives}
use rabaska.Pipeline.Services.{Deflate, Fountain}
use rabaska.Pipeline.Receiver.{Receiver, set_key, restore, ingest}
use rabaska.Pipeline.Receiver.Refusals.{
  Refusals, crate_panics, ingest_or_panic, RefusesOti, RefusesPacket, crate_panics-refuses,
}
use rabaska.Pipeline.Receiver.Invariant.{
  IsValid, set_key-IsValid, hold-IsValid, ingest_beacon-Sound, ingest_symbol-Sound,
}

pub peek_type-ne-panic : (frame : Bytes) → peek_type frame ≢ panic
unfolding peek_type
peek_type-ne-panic frame h = ground arith

mode_from_u8-ne-panic : (v : ℕ) → mode_from_u8 v ≢ panic
unfolding mode_from_u8
mode_from_u8-ne-panic v h = ground arith

module _ ⦃crc : Crc⦄ where
  pub beacon_decode-ne-panic : (frame : Bytes) → Beacon.decode frame ≢ panic
  unfolding Beacon.decode
  beacon_decode-ne-panic frame h =
      let (body, opened, rest) =
        >>=-eq-panic (open_frame frame beacon_type (some beacon_len)) _
          (open_frame-ne-panic frame beacon_type (some beacon_len)) h in
      ground (arith, mode_from_u8-ne-panic (byte_at body 0))

module _ ⦃crc : Crc⦄ ⦃prim : Primitives⦄ ⦃deflate : Deflate⦄ ⦃fountain : Fountain⦄ where
  -- The state that `ingest` leaves is valid whatever it returns, and its own code panics on no frame but
  -- those on which `SymbolFrame::decode` does.
  pub ingest-IsValid :
      (r : Receiver) (frame : Bytes)
      → IsValid r
      → IsValid (ingest r frame).0 × ((ingest r frame).1 ≡ panic → Symbol.decode frame ≡ panic)
  unfolding ingest
  ingest-IsValid r frame v =
      let peeked = peek_type-ne-panic frame in
      elim (Result-cases (Beacon.decode frame)) [
        | inl bad ↦ absurd (beacon_decode-ne-panic frame bad)
        | inr (inr (b, read)) ↦
            let sound = ingest_beacon-Sound r b v in
            elim (Result-cases (Symbol.decode frame)) [
              | inr (inr (sf, got)) ↦ let sound' = ingest_symbol-Sound r sf v in ground arith
              | inr (inl (_, other)) ↦ ground arith
              | inl crash ↦ ground arith
            ]
        | inr (inl (e, refused)) ↦ elim (Result-cases (Symbol.decode frame)) [
          | inr (inr (sf, got)) ↦ let sound' = ingest_symbol-Sound r sf v in ground arith
          | inr (inl (_, other)) ↦ ground arith
          | inl crash ↦ ground arith
        ]
      ]

  ingest_or_panic-IsValid :
      (refusals : Refusals) (r : Receiver) (frame : Bytes)
      → IsValid r
      → IsValid (ingest_or_panic refusals r frame).0
        × ((ingest_or_panic refusals r frame).1 ≡ panic
            → (Symbol.decode frame ≡ panic)
              ⊎ (RefusesOti refusals r frame ⊎ RefusesPacket refusals r frame))
  unfolding ingest_or_panic
  ingest_or_panic-IsValid refusals r frame v = elim (Bool-cases (crate_panics refusals r frame)) [
    | inl crash ↦ rw crash (v, λ h. inr (crate_panics-refuses refusals r frame crash))
    | inr calm ↦ let (kept, own) = ingest-IsValid r frame v in rw calm (kept, λ h. inl (own h))
  ]

  -- The receiver's methods keep the invariant: what it counts is the number of distinct packets in its
  -- checkpoint, and it has a decoder as soon as it has a beacon. Whatever transmission information and packets
  -- the fountain crate panics on, ingest panics on a frame only if SymbolFrame::decode panics on it, or it is a
  -- beacon, where the receiver has none, with information on which the crate panics, or packets of the
  -- receiver's session, with one of four bytes at least among them and those that waited on which it does.
  pub receiver_methods-IsValid :
      (refusals : Refusals) (r : Receiver)
      → IsValid r
      → ((key : Bytes) → IsValid (set_key r key))
        × ((session_id : Bytes) (packets : List Bytes) → IsValid (restore r session_id packets))
        × ((frame : Bytes)
            → IsValid (ingest_or_panic refusals r frame).0
              × ((ingest_or_panic refusals r frame).1 ≡ panic
                  → (Symbol.decode frame ≡ panic)
                    ⊎ (RefusesOti refusals r frame ⊎ RefusesPacket refusals r frame)))
  unfolding restore
  receiver_methods-IsValid refusals r v = (
    λ key. set_key-IsValid r key v,
    λ session_id packets. hold-IsValid r session_id packets v,
    λ frame. ingest_or_panic-IsValid refusals r frame v,
  )
