-- ===== src/Tests/Senders.antt =====
-- A beacon and a transmitter for the tests.
use rabaska.Prelude.{arith, refl, Bool, [], ◌∷◌, replicate}
use rabaska.Prelude.Bytes.{Bytes}
use rabaska.Wire.Types.{pair, default_codec}
use rabaska.Wire.Beacon
use rabaska.Pipeline.Transmitter.{Transmitter}
use rabaska.Pipeline.Transmitter.Validity.{IsValid}
use rabaska.Tests.Toys.{toy_crc, toy_primitives, toy_deflate, toy_fountain, array}

abbrev pub a_session : Bytes
a_session = 0x10 ∷ 0x32 ∷ 0x54 ∷ 0x76 ∷ 0x98 ∷ 0xba ∷ 0xdc ∷ 0xfe ∷ []

abbrev pub a_beacon : Beacon.Beacon
a_beacon = record {
  mode = pair;
  flags = 1;
  session_id = a_session;
  s_eph_pub = replicate 32 8;
  nonce = replicate 24 3;
  plaintext_len = 1000;
  oti = replicate 12 1;
  codec = default_codec;
  build_hash = replicate 8 2;
}

pub a_beacon-IsWellFormed : Beacon.IsWellFormed a_beacon
a_beacon-IsWellFormed = record {
  flags = omega arith;
  session_id = array 8 a_session refl;
  s_eph_pub = array 32 (replicate 32 8) refl;
  nonce = array 24 (replicate 24 3) refl;
  plaintext_len = omega arith;
  oti = array 12 (replicate 12 1) refl;
  symbol_size = omega arith;
  palette = omega arith;
  tile_px = omega arith;
  build_hash = array 8 (replicate 8 2) refl;
}

abbrev pub a_transmitter : Bool → Transmitter
a_transmitter held = record {
  beacon = a_beacon;
  beacon_bytes = Beacon.encode a_beacon;
  packets = replicate 9 1 ∷ replicate 9 2 ∷ [];
  cursor = 1;
  frame_id = 4_294_967_294;
  per_frame = 2;
  packet_len = 9;
  beacon_interval = 3;
  plaintext_hash = replicate 8 0;
  held = held;
}

pub a_transmitter-IsValid : (held : Bool) → IsValid (a_transmitter held)
a_transmitter-IsValid held = record {
  beacon = a_beacon-IsWellFormed;
  beacon_bytes = refl;
  packets = (array 9 (replicate 9 1) refl, (array 9 (replicate 9 2) refl, tt));
  packet_len_pos = omega arith;
  packet_len_lt = omega arith;
  cursor = omega arith;
  frame_id = omega arith;
  interval = omega arith;
  per_frame = omega arith;
}
