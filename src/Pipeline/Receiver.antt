-- ===== src/Pipeline/Receiver.antt =====
-- core/src/pipeline.rs: the receiver.
pub mod Known
pub mod Invariant
pub mod Methods
pub mod Opening
pub mod Reading
pub mod Refusals
pub mod Sessions
pub mod Resume
pub mod Contract
use rabaska.Prelude.{
  ℕ, zero, suc, ◌≡◌, ◌+◌, ◌-◌, ◌/◌, max, Option, none, some, Bool, true, false, ◌||◌, List, [], ◌∷◌,
  ◌++◌, length, map, ltb, ◌==◌, if◌then◌else◌,
}
use rabaska.Prelude.Bytes.{Bytes, slice, bytes_eq}
use rabaska.Error.{
  Result, ok, err, panic, ◌>>=◌, ◌>>◌, ensure, foreign_session, bad_frame_type, length_mismatch,
}
use rabaska.Wire.Types.{Status, beacon_type, symbol_type}
use rabaska.Wire.Frame.{Crc, peek_type}
use rabaska.Wire.Beacon
use rabaska.Wire.Beacon.{Beacon, aad, compressed}
use rabaska.Wire.Symbol
use rabaska.Wire.Complete
use rabaska.Crypto.Primitives.{Primitives}
use rabaska.Crypto.Keys.{decrypt}
use rabaska.Crypto.Human.{complete_hash}
use rabaska.Pipeline.Services.{Deflate, Fountain}
use rabaska.Pipeline.Compress.{maybe_decompress}

pub data Ingest : Type 0 where
  ignored beacon_acquired : Ingest
  progress : ℕ → ℕ → Ingest
  done : Bytes → Ingest

pub record Receiver ⦃fountain : Fountain⦄ : Type 0 where
  pub beacon : Option Beacon
  pub key : Option Bytes
  pub decoder : Option fountain.Decoder
  pub pending : List (Bytes × Bytes)
  pub seen : List Bytes
  pub ids : List Bytes
  pub received : ℕ
  pub needed : ℕ
  pub done : Bool

-- The first four bytes of a packet.
abbrev pub id_of : Bytes → Bytes
id_of raw = slice 0 4 raw

-- `HashSet::contains`
unfoldable pub contains : List Bytes → Bytes → Bool
unfolding bytes_eq
contains [] id = false
contains (i ∷ is) id = bytes_eq i id || contains is id

-- `pending.drain(..).filter(|(s, _)| *s == sid4).map(|(_, p)| p)`
unfoldable pub of_session : Bytes → List (Bytes × Bytes) → List Bytes
unfolding bytes_eq
of_session sid4 [] = []
of_session sid4 ((s, p) ∷ rest) =
    let kept = of_session sid4 rest in if bytes_eq s sid4 then p ∷ kept else kept

-- `transfer_length.div_ceil(symbol_size.max(1))`
unfoldable pub symbols_needed : ℕ → ℕ → ℕ
symbols_needed transfer symbol = let sym = max symbol 1 in (transfer + sym - 1) / sym

module _ ⦃fountain : Fountain⦄ where
  unfoldable pub new : Receiver
  new = record {
    beacon = none;
    key = none;
    decoder = none;
    pending = [];
    seen = [];
    ids = [];
    received = 0;
    needed = 0;
    done = false;
  }

  unfoldable pub set_key : Receiver → Bytes → Receiver
  set_key r key = record r { key = some key }

  unfoldable pub hold : Receiver → Bytes → List Bytes → Receiver
  unfolding bytes_eq
  hold r sid4 packets =
      let held : Receiver = record r { pending = r.pending ++ map (λ p. (sid4, p)) packets } in
      elim r.beacon [
        | none ↦ held
        | some b ↦ if bytes_eq sid4 (slice 0 4 b.session_id) then held else r
      ]

  unfoldable pub restore : Receiver → Bytes → List Bytes → Receiver
  unfolding hold
  restore r session_id packets = hold r session_id packets

  -- `if finished.is_none() { if let Some(ct) = dec.decode(…) { finished = Some(ct) } }`
  unfoldable pub feed_unfinished :
      fountain.Decoder → Bytes → Option Bytes → fountain.Decoder × Option Bytes
  feed_unfinished dec raw none = fountain.feed dec raw
  feed_unfinished dec raw (some ct) = (dec, some ct)

  -- The body of `for raw in queued`; the missing decoder is the failure of `expect`.
  unfoldable pub absorb_packet : Bytes → Receiver → Option Bytes → Result (Receiver × Option Bytes)
  unfolding contains feed_unfinished
  absorb_packet raw r finished =
      if ltb (length raw) 4
      then ok (r, finished)
      else if contains r.ids (id_of raw)
      then ok (r, finished)
      else elim r.decoder [
        | none ↦ panic
        | some dec ↦ ok (
          record r {
            ids = r.ids ++ id_of raw ∷ [];
            seen = r.seen ++ raw ∷ [];
            received = r.received + 1;
            decoder = some (feed_unfinished dec raw finished).0;
          },
          (feed_unfinished dec raw finished).1,
        )
      ]

  unfoldable pub absorb_all :
      List Bytes → Receiver → Option Bytes → Result (Receiver × Option Bytes)
  absorb_all [] r finished = ok (r, finished)
  absorb_all (raw ∷ queued) r finished = do
    (r', finished') ← absorb_packet raw r finished
    absorb_all queued r' finished'

module _ ⦃crc : Crc⦄ ⦃prim : Primitives⦄ ⦃deflate : Deflate⦄ ⦃fountain : Fountain⦄ where
  -- From `crypto::decrypt` to the check of the length.
  unfoldable pub open_object : Beacon → Bytes → Bytes → Result Bytes
  open_object b key ct = do
    body ← decrypt key b.nonce (aad b) ct
    plaintext ← maybe_decompress body (compressed b)
    ensure (length plaintext == b.plaintext_len)
        (length_mismatch b.plaintext_len (length plaintext))
    ok plaintext

  -- What `absorb` does with what the loop left.
  unfoldable pub conclude : Beacon → Receiver × Option Bytes → Receiver × Result Ingest
  conclude b (r, none) = (r, ok (progress r.received r.needed))
  conclude b (r, some ct) = elim r.key [
    | none ↦ (r, ok (progress r.received r.needed))
    | some key ↦ elim (open_object b key ct) [
      | ok plaintext ↦ (record r { done = true }, ok (done plaintext))
      | err e ↦ (r, err e)
      | panic ↦ (r, panic)
    ]
  ]

  -- `absorb` from its loop on, `pending` drained.
  unfoldable pub absorb_queued : Beacon → Receiver → List Bytes → Receiver × Result Ingest
  absorb_queued b r queued = elim (absorb_all queued r none) [
    | ok absorbed ↦ conclude b absorbed
    | err e ↦ (r, err e)
    | panic ↦ (r, panic)
  ]

  -- A `&mut self` that returns a `Result`: the state is changed also where an error is returned.
  unfoldable pub absorb : Receiver → List Bytes → Receiver × Result Ingest
  unfolding of_session absorb_queued
  absorb r packets = elim r.beacon [
    | none ↦ (r, panic)
    | some b ↦
        absorb_queued b (record r { pending = [] })
          (of_session (slice 0 4 b.session_id) r.pending ++ packets)
  ]

  -- The `BEACON` arm of `ingest`.
  unfoldable pub ingest_beacon : Receiver → Beacon → Receiver × Result Ingest
  unfolding bytes_eq symbols_needed
  ingest_beacon r b = elim r.beacon [
    | some existing ↦
        if bytes_eq existing.session_id b.session_id
        then (r, ok ignored)
        else (r, err foreign_session)
    | none ↦ (
      record r {
        needed = symbols_needed (fountain.transfer_length b.oti) (fountain.symbol_size b.oti);
        decoder = some (fountain.new_decoder b.oti);
        beacon = some b;
      },
      ok beacon_acquired,
    )
  ]

  -- The `SYMBOL` arm of `ingest`.
  unfoldable pub ingest_symbol : Receiver → Symbol.SymbolFrame → Receiver × Result Ingest
  unfolding bytes_eq hold absorb
  ingest_symbol r sf = elim r.beacon [
    | none ↦ (hold r sf.sid4 sf.packets, ok ignored)
    | some b ↦
        if bytes_eq sf.sid4 (slice 0 4 b.session_id)
        then absorb r sf.packets
        else (r, err foreign_session)
  ]

  -- Where the fountain crate does not panic; Refusals has its panics.
  unfoldable pub ingest : Receiver → Bytes → Receiver × Result Ingest
  ingest r frame = if r.done then (r, ok ignored) else elim (peek_type frame) [
    | err e ↦ (r, err e)
    | panic ↦ (r, panic)
    | ok ty ↦
        if ty == beacon_type
        then elim (Beacon.decode frame) [
          | ok b ↦ ingest_beacon r b
          | err e ↦ (r, err e)
          | panic ↦ (r, panic)
        ]
        else if ty == symbol_type
        then elim (Symbol.decode frame) [
          | ok sf ↦ ingest_symbol r sf
          | err e ↦ (r, err e)
          | panic ↦ (r, panic)
        ]
        else (r, err (bad_frame_type ty))
  ]

  unfoldable pub complete_frame : Receiver → Bytes → Status → Option Bytes
  complete_frame r plaintext status = elim r.beacon [
    | none ↦ none
    | some b ↦ some (
        Complete.encode (record {
          sid4 = slice 0 4 b.session_id;
          status = status;
          hash8 = complete_hash b.session_id plaintext;
        }))
  ]
