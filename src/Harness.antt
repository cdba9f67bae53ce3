-- ===== src/Harness.antt =====
-- harness/src/main.rs: one transfer between two peers over a channel that loses frames.
pub mod Keys
pub mod Rounds
pub mod Lossless
pub mod Run
pub mod Converges
pub mod Delivers
pub mod Vectors
pub mod Samples
pub mod Commands
pub mod WireBytes
pub mod Tables
use rabaska.Prelude.{
  ℕ, zero, suc, ◌+◌, ◌*◌, ◌/◌, ◌%◌, ◌^◌, Option, none, some, Bool, true, false, if◌then◌else◌, not,
  List, [], ◌∷◌, ◌++◌, length, replicate, get_elem?,
}
use rabaska.Prelude.Bytes.{Bytes, ascii, bytes_eq}
use rabaska.Error.{Error, Result, ok, err, panic}
use rabaska.Floats.{Floats}
use rabaska.Wire.Types as Types
use rabaska.Wire.Types.{Mode, pair, session, seal, open_room, default_codec}
use rabaska.Wire.Frame.{Crc}
use rabaska.Wire.Complete
use rabaska.Crypto.Primitives.{Primitives}
use rabaska.Crypto.Keys.{
  KeyPair, key_pair, sender, receiver, derive_pair, derive_session, seal_sender, seal_receiver,
  derive_open,
}
use rabaska.Crypto.Human.{build_hash}
use rabaska.Pipeline.Services.{Deflate, Fountain}
use rabaska.Pipeline.Transmitter as Tx
use rabaska.Pipeline.Transmitter.{
  Transmitter, TransmitConfig, OpticalFrame, beacon_frame, symbol_frame, frame_bytes, next_frame_at,
}
use rabaska.Pipeline.Receiver as Rx
use rabaska.Pipeline.Receiver.{
  Receiver, Ingest, ignored, beacon_acquired, progress, done, set_key, ingest, complete_frame,
}

pub record Rung : Type 0 where
  pub name : Bytes
  pub capacity : ℕ
  pub weight : ℕ

abbrev pub rung_qr : Rung
rung_qr = record { name = ascii "QR v25"; capacity = 997; weight = 1 }

abbrev pub rung_c4 : Rung
rung_c4 = record { name = ascii "4-colour"; capacity = 7500; weight = 2 }

abbrev pub rung_c8 : Rung
rung_c8 = record { name = ascii "8-colour"; capacity = 11_000; weight = 4 }

-- The weights expanded into a display schedule.
unfoldable pub schedule_of : List Rung → List Rung
schedule_of [] = []
schedule_of (r ∷ ladder) = replicate r.weight r ++ schedule_of ladder

pub record Peers : Type 0 where
  pub s_eph : KeyPair
  pub s_id : KeyPair
  pub r_eph : KeyPair
  pub r_id : KeyPair
  pub sid : Bytes

-- How a run ends: `Ok`, or one of its `Err`s, or a panic.
pub data Outcome ⦃f : Floats⦄ : Type 0 where
  delivered : ℕ → f.F → Outcome
  payload_differs hash_mismatch did_not_converge : Outcome
  frame_failed : ℕ → Error → Outcome
  completion_failed : Error → Outcome
  panicked : Outcome

module _ ⦃f : Floats⦄ where
  -- Probabilities that a rung's frame is read.
  pub record Lighting : Type 0 where
    pub name : Bytes
    pub p_qr : f.F
    pub p_c4 : f.F
    pub p_c8 : f.F

  -- The state after `next_f64`, and what it draws.
  unfoldable pub next_f64 : ℕ → ℕ × f.F
  next_f64 state =
      let next = (state * 6_364_136_223_846_793_005 + 1_442_695_040_888_963_407) % 2 ^ 64 in
      (next, f.div (f.of_nat (next / 2 ^ 11)) (f.of_nat (2 ^ 53)))

  -- The probability of a frame: a beacon goes out on the robust rung.
  unfoldable pub read_probability : Lighting → Rung → OpticalFrame → f.F
  unfolding bytes_eq
  read_probability light rung (beacon_frame b) = light.p_qr
  read_probability light rung (symbol_frame b) =
      if bytes_eq rung.name (ascii "QR v25")
      then light.p_qr
      else if bytes_eq rung.name (ascii "4-colour")
      then light.p_c4
      else light.p_c8

module _ ⦃prim : Primitives⦄ where
  -- `Peers::new`, from the secrets and the session that it draws.
  unfoldable pub peers_from : Bytes → Bytes → Bytes → Bytes → Bytes → Peers
  peers_from s_eph s_id r_eph r_id sid = record {
    s_eph = key_pair s_eph;
    s_id = key_pair s_id;
    r_eph = key_pair r_eph;
    r_id = key_pair r_id;
    sid = sid;
  }

  -- The sender's key and the receiver's.
  unfoldable pub keys_for : Mode → Peers → Bytes × Bytes
  unfolding derive_pair derive_session seal_sender seal_receiver derive_open
  keys_for pair p = (
    derive_pair sender p.s_eph p.r_eph.public p.sid,
    derive_pair receiver p.r_eph p.s_eph.public p.sid,
  )
  keys_for session p = (
    derive_session sender p.s_eph p.s_id p.r_eph.public p.r_id.public p.sid,
    derive_session receiver p.r_eph p.r_id p.s_eph.public p.s_id.public p.sid,
  )
  keys_for seal p = (
    seal_sender p.s_eph (some p.s_id) p.r_id.public,
    seal_receiver p.r_id p.s_eph.public (some p.s_id.public),
  )
  keys_for open_room p = (derive_open p.sid p.s_eph.public, derive_open p.sid p.s_eph.public)

  is_seal : Mode → Bool
  is_seal seal = true
  is_seal _ = false

  unfoldable pub config_for : Mode → Peers → TransmitConfig
  unfolding build_hash is_seal
  config_for mode p = record {
    mode = mode;
    session_id = p.sid;
    s_eph_pub = p.s_eph.public;
    codec = record default_codec { palette = 8 };
    build_hash = build_hash (ascii "rabaska-harness");
    frame_capacity = rung_c4.capacity;
    sender_auth = is_seal mode;
  }

module _ ⦃crc : Crc⦄ ⦃prim : Primitives⦄ ⦃deflate : Deflate⦄ ⦃fountain : Fountain⦄
    ⦃f : Floats⦄ where
  -- The peers' states and the generator's.
  pub record World : Type 0 where
    pub tx : Transmitter
    pub rx : Receiver
    pub key : Option Bytes
    pub rng : ℕ

  -- Another round, or the end.
  pub data Round : Type 0 where
    goes_on : World → Round
    ends : Outcome → Round

  -- The delivery confirmation; `unwrap` panics without a beacon.
  unfoldable pub confirm : Transmitter → Receiver → ℕ → Bytes → Bytes → Outcome
  unfolding bytes_eq
  confirm tx rx i payload plaintext =
      if not (bytes_eq plaintext payload)
      then payload_differs
      else elim (complete_frame rx plaintext Types.done) [
        | none ↦ panicked
        | some cf ↦ elim (Complete.decode cf) [
          | err e ↦ completion_failed e
          | panic ↦ panicked
          | ok parsed ↦
              if not (bytes_eq parsed.hash8 tx.plaintext_hash)
              then hash_mismatch
              else delivered (i + 1) (f.div (f.of_nat (i + 1)) (f.of_nat 30))
        ]
      ]

  -- `match rx.ingest(frame.bytes())`; `key.take().expect(…)` panics on a second beacon.
  unfoldable pub receive : World → ℕ → Bytes → Receiver × Result Ingest → Round
  unfolding confirm
  receive w i payload (rx, ok beacon_acquired) = elim w.key [
    | none ↦ ends panicked
    | some key ↦ goes_on (record w { rx = set_key rx key; key = none })
  ]
  receive w i payload (rx, ok (done plaintext)) = ends (confirm w.tx rx i payload plaintext)
  receive w i payload (rx, ok ignored) = goes_on (record w { rx = rx })
  receive w i payload (rx, ok (progress n m)) = goes_on (record w { rx = rx })
  receive w i payload (rx, err e) = ends (frame_failed i e)
  receive w i payload (rx, panic) = ends panicked

  -- What the receiver makes of a frame that was shown, if it reads it.
  unfoldable pub show : Lighting → World → ℕ → Bytes → Rung → OpticalFrame → Round
  unfolding next_f64 read_probability receive
  show light w i payload rung frame =
      let (rng, drawn) = next_f64 w.rng in
      let w' : World = record w { rng = rng } in
      elim (f.lt (read_probability light rung frame) drawn) [
        | true ↦ goes_on w'
        | false ↦ receive w' i payload (ingest w'.rx (frame_bytes frame))
      ]

  -- The body of `for i in 0..400_000`.
  unfoldable pub round : List Rung → Lighting → Bytes → ℕ → World → Round
  unfolding show
  round schedule light payload i w = elim (get_elem? schedule (i % length schedule)) [
    | none ↦ ends panicked
    | some rung ↦ elim (next_frame_at w.tx rung.capacity) [
      | ok (tx, frame) ↦ show light (record w { tx = tx }) i payload rung frame
      | err e ↦ ends panicked
      | panic ↦ ends panicked
    ]
  ]

  -- `rounds` rounds from `i` on.
  unfoldable pub rounds_from : List Rung → Lighting → Bytes → ℕ → ℕ → World → Outcome
  unfolding round
  rounds_from schedule light payload zero i w = did_not_converge
  rounds_from schedule light payload (suc rounds) i w = elim (round schedule light payload i w) [
    | ends o ↦ o
    | goes_on w' ↦ rounds_from schedule light payload rounds (i + 1) w'
  ]

  -- `nonce` is the one that `Transmitter::new` draws.
  unfoldable pub run : Mode → Peers → Bytes → Bytes → List Rung → Lighting → ℕ → Outcome
  unfolding keys_for config_for rounds_from schedule_of
  run mode p nonce payload ladder light seed =
      let (ks, kr) = keys_for mode p in
      rounds_from (schedule_of ladder) light payload 400_000 0 (record {
        tx = Tx.new ks nonce (config_for mode p) payload;
        rx = Rx.new;
        key = some kr;
        rng = seed;
      })
