-- ===== src/Pipeline/Transmitter.antt =====
-- core/src/pipeline.rs: the transmitter.
pub mod Validity
pub mod Held
pub mod Acquire
pub mod Start
use rabaska.Prelude.{
  ℕ, zero, suc, ◌≡◌, ◌+◌, ◌%◌, ◌^◌, max, Option, none, some, Bool, true, false, ◌||◌, List, [], ◌∷◌,
  ◌++◌, length, get_elem?, replicate, bit_or, ◌==◌, if◌then◌else◌,
}
use rabaska.Prelude.Bytes.{Bytes, slice}
use rabaska.Error.{Result, ok, panic, ◌>>=◌}
use rabaska.Wire.Types.{Mode, CodecParams, compressed_flag, sender_auth_flag}
use rabaska.Wire.Frame.{Crc}
use rabaska.Wire.Beacon
use rabaska.Wire.Beacon.{Beacon, aad}
use rabaska.Wire.Symbol
use rabaska.Wire.Symbol.{SymbolFrame, packets_per_frame}
use rabaska.Crypto.Primitives.{Primitives}
use rabaska.Crypto.Keys.{encrypt}
use rabaska.Crypto.Human.{complete_hash}
use rabaska.Pipeline.Services.{Deflate, Fountain}
use rabaska.Pipeline.Compress.{maybe_compress}

-- `Frame`
pub data OpticalFrame : Type 0 where
  beacon_frame : Bytes → OpticalFrame
  symbol_frame : Bytes → OpticalFrame

unfoldable pub frame_bytes : OpticalFrame → Bytes
frame_bytes (beacon_frame b) = b
frame_bytes (symbol_frame b) = b

pub record Transmitter : Type 0 where
  pub beacon : Beacon
  pub beacon_bytes : Bytes
  pub packets : List Bytes
  pub cursor : ℕ
  pub frame_id : ℕ
  pub per_frame : ℕ
  pub packet_len : ℕ
  pub beacon_interval : ℕ
  pub plaintext_hash : Bytes
  pub held : Bool

pub record TransmitConfig : Type 0 where
  pub mode : Mode
  pub session_id : Bytes
  pub s_eph_pub : Bytes
  pub codec : CodecParams
  pub build_hash : Bytes
  pub frame_capacity : ℕ
  pub sender_auth : Bool

-- `flags |= …` for each flag that is on
unfoldable pub flags_of : Bool → Bool → ℕ
flags_of compressed sender_auth =
    let flags = if compressed then bit_or 0 compressed_flag else 0 in
    if sender_auth then bit_or flags sender_auth_flag else flags

-- `packets.first().map(|p| p.len() as u16).unwrap_or(symbol_size + 4)`
unfoldable pub first_len : List Bytes → ℕ → ℕ
first_len [] symbol_size = (symbol_size + 4) % 256 ^ 2
first_len (p ∷ ps) symbol_size = length p % 256 ^ 2

-- The beacon before `oti` is known.
unfoldable pub unsent_beacon : TransmitConfig → Bytes → Bool → ℕ → Beacon
unfolding flags_of
unsent_beacon cfg nonce compressed plaintext_len = record {
  mode = cfg.mode;
  flags = flags_of compressed cfg.sender_auth;
  session_id = cfg.session_id;
  s_eph_pub = cfg.s_eph_pub;
  nonce = nonce;
  plaintext_len = plaintext_len % 256 ^ 4;
  oti = replicate 12 0;
  codec = cfg.codec;
  build_hash = cfg.build_hash;
}

module _ ⦃crc : Crc⦄ ⦃prim : Primitives⦄ ⦃deflate : Deflate⦄ ⦃fountain : Fountain⦄ where
  -- `Transmitter::new`; the nonce is the one that `random_nonce` draws.
  unfoldable pub new : Bytes → Bytes → TransmitConfig → Bytes → Transmitter
  unfolding unsent_beacon first_len
  new key nonce cfg plaintext =
      let (body, compressed) = maybe_compress plaintext in
      let unsent = unsent_beacon cfg nonce compressed (length plaintext) in
      let ct = encrypt key nonce (aad unsent) body in
      let beacon : Beacon = record unsent { oti = fountain.config ct cfg.codec.symbol_size } in
      let packets = fountain.encoded_packets ct cfg.codec.symbol_size in
      let packet_len = first_len packets cfg.codec.symbol_size in
      record {
        beacon = beacon;
        beacon_bytes = Beacon.encode beacon;
        packets = packets;
        cursor = 0;
        frame_id = 0;
        per_frame = max (packets_per_frame cfg.frame_capacity packet_len) 1;
        packet_len = packet_len;
        beacon_interval = 15;
        plaintext_hash = complete_hash cfg.session_id plaintext;
        held = false;
      }

unfoldable pub hold : Transmitter → Transmitter
hold t = record t { held = true }

unfoldable pub release : Transmitter → Transmitter
release t = record t { held = false }

unfoldable pub set_beacon_interval : Transmitter → ℕ → Transmitter
set_beacon_interval t n = record t { beacon_interval = max n 1 }

-- `for _ in 0..n { chunk.push(packets[cursor].clone()); cursor = (cursor + 1) % packets.len(); }`
unfoldable pub next_packets : ℕ → List Bytes → ℕ → Result (List Bytes × ℕ)
next_packets zero packets cursor = ok ([], cursor)
next_packets (suc n) packets cursor = elim (get_elem? packets cursor) [
  | none ↦ panic
  | some p ↦ do
    (rest, cursor') ← next_packets n packets ((cursor + 1) % length packets)
    ok (p ∷ rest, cursor')
]

module _ ⦃crc : Crc⦄ where
  -- The remainder by an interval of 0 panics.
  unfoldable pub next_frame_packed : Transmitter → ℕ → Result (Transmitter × OpticalFrame)
  next_frame_packed t n =
      let id = t.frame_id in
      let t' : Transmitter = record t { frame_id = (id + 1) % 256 ^ 4 } in
      if t.beacon_interval == 0
      then panic
      else if t.held || id % t.beacon_interval == 0
      then ok (t', beacon_frame t.beacon_bytes)
      else do
        (chunk, cursor) ← next_packets n t.packets t.cursor
        let frame : SymbolFrame = record {
          sid4 = slice 0 4 t.beacon.session_id;
          frame_id = id;
          packet_len = t.packet_len;
          packets = chunk;
        }
        ok (record t' { cursor = cursor }, symbol_frame (Symbol.encode frame))

  unfoldable pub next_frame : Transmitter → Result (Transmitter × OpticalFrame)
  unfolding next_frame_packed
  next_frame t = next_frame_packed t t.per_frame

  unfoldable pub next_frame_at : Transmitter → ℕ → Result (Transmitter × OpticalFrame)
  unfolding next_frame_packed
  next_frame_at t capacity = next_frame_packed t (max (packets_per_frame capacity t.packet_len) 1)

  -- A stream of frames, each for the capacity of its rung.
  unfoldable pub stream : Transmitter → List ℕ → Result (Transmitter × List OpticalFrame)
  stream t [] = ok (t, [])
  stream t (capacity ∷ rest) = do
    (t', frame) ← next_frame_at t capacity
    (t'', frames) ← stream t' rest
    ok (t'', frame ∷ frames)
