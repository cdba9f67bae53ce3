-- ===== src/Tests/Receiving.antt =====
-- The receiver's theorems at a transfer of three bytes.
use rabaska.Prelude.{
  ◌≡◌, ◌⊎◌, ◌==◌, length, refl, arith, Option, none, some, List, [], ◌∷◌, replicate,
}
use rabaska.Prelude.Bytes.{Bytes, bytes_eq}
use rabaska.Error.{ok, panic}
use rabaska.Wire.Types.{pair, default_codec, mode_byte, mode_from_u8}
use rabaska.Wire.Beacon
use rabaska.Wire.Beacon.{Beacon, compressed}
use rabaska.Wire.Frame.{peek_type, open_frame, check_len}
use rabaska.Wire.Symbol.Chunks.{chunks, chunks_exact}
use rabaska.Crypto.Keys.{decrypt}
use rabaska.Pipeline.Compress.{maybe_decompress}
use rabaska.Wire.Symbol
use rabaska.Pipeline.Receiver.{
  Receiver, ignored, new, set_key, restore, ingest, ingest_beacon, ingest_symbol, absorb_all,
  absorb_packet, conclude, open_object, absorb, absorb_queued, contains, feed_unfinished,
  of_session,
}
use rabaska.Pipeline.Receiver.Invariant.{
  IsValid, new-IsValid, set_key-IsValid, ingest_beacon-Sound, ingest_symbol-Sound,
}
use rabaska.Pipeline.Receiver.Refusals.{Refusals, ingest_or_panic, RefusesOti, RefusesPacket}
use rabaska.Pipeline.Receiver.Methods.{receiver_methods-IsValid}
use rabaska.Pipeline.Receiver.Contract.{carries, view, Step, Restores}
use rabaska.Pipeline.Receiver.Contract.Unordered.{absorb_all_unordered}
use rabaska.Pipeline.Receiver.Contract.Refinement.{receiver-Refines}
use rabaska.Pipeline.Receiver.Opening.{Delivers, ingest-Delivers}
use rabaska.Pipeline.Receiver.Sessions.{restore_foreign}
use rabaska.Pipeline.Receiver.Resume.{restarted, resume-SameProgress}
use rabaska.Pipeline.Receiver.Resume.Absorbing.{SameProgress}
use rabaska.Tests.Toys.{toy_crc, toy_primitives, toy_deflate, toy_fountain}

abbrev three_bytes : Beacon
three_bytes = record {
  mode = pair;
  flags = 0;
  session_id = 1 ∷ 2 ∷ 3 ∷ 4 ∷ 5 ∷ 6 ∷ 7 ∷ 8 ∷ [];
  s_eph_pub = replicate 32 8;
  nonce = replicate 24 3;
  plaintext_len = 3;
  oti = 3 ∷ 0 ∷ 0 ∷ 0 ∷ 0 ∷ 0 ∷ 0 ∷ 0 ∷ 5 ∷ 0 ∷ 0 ∷ 0 ∷ [];
  codec = default_codec;
  build_hash = replicate 8 2;
}

abbrev three_bytes_symbol : Symbol.SymbolFrame
three_bytes_symbol = record {
  sid4 = 1 ∷ 2 ∷ 3 ∷ 4 ∷ [];
  frame_id = 1;
  packet_len = 9;
  packets = (0 ∷ 0 ∷ 0 ∷ 0 ∷ 10 ∷ 20 ∷ 30 ∷ 0 ∷ 0 ∷ []) ∷ [];
}

-- A receiver that has seen the beacon and has a key.
abbrev keyed : Receiver
keyed = set_key (ingest_beacon new three_bytes).0 (replicate 32 1)

keyed-IsValid : IsValid keyed
keyed-IsValid =
    set_key-IsValid (ingest_beacon new three_bytes).0 (replicate 32 1)
      (ingest_beacon-Sound new three_bytes new-IsValid).0

-- A crate that panics on symbols of no bytes, and on a packet that is its identifier only.
abbrev toy_refusals : Refusals
toy_refusals = record {
  oti = λ oti. toy_fountain.symbol_size oti == 0;
  packet = λ dec raw. length raw == 4;
}

receiver_methods-IsValid_example :
    ((key : Bytes) → IsValid (set_key keyed key))
    × ((session_id : Bytes) (packets : List Bytes) → IsValid (restore keyed session_id packets))
    × ((frame : Bytes)
        → IsValid (ingest_or_panic toy_refusals keyed frame).0
          × ((ingest_or_panic toy_refusals keyed frame).1 ≡ panic
              → (Symbol.decode frame ≡ panic)
                ⊎ (RefusesOti toy_refusals keyed frame ⊎ RefusesPacket toy_refusals keyed frame)))
receiver_methods-IsValid_example = receiver_methods-IsValid toy_refusals keyed keyed-IsValid

abbrev last_frame : Bytes
last_frame = Symbol.encode three_bytes_symbol

ingest-Delivers_example :
    Delivers keyed (10 ∷ 20 ∷ 30 ∷ []) (ingest keyed last_frame).0
    × ((next : Bytes)
        → ingest (ingest keyed last_frame).0 next ≡ ((ingest keyed last_frame).0, ok ignored))
unfolding ingest set_key ingest_beacon new peek_type Symbol.encode Symbol.decode open_frame
    check_len chunks_exact ingest_symbol absorb_all absorb_packet conclude open_object decrypt
    maybe_decompress compressed absorb absorb_queued contains feed_unfinished of_session bytes_eq
    chunks
ingest-Delivers_example = ingest-Delivers keyed last_frame (10 ∷ 20 ∷ 30 ∷ []) keyed-IsValid refl

-- A packet kept from a session that starts with other bytes.
restore_foreign_example :
    ingest_symbol
      (ingest_beacon (restore new (9 ∷ 9 ∷ 9 ∷ 9 ∷ []) (replicate 9 7 ∷ [])) three_bytes).0
      three_bytes_symbol
    ≡ ingest_symbol (ingest_beacon new three_bytes).0 three_bytes_symbol
unfolding new
restore_foreign_example =
    restore_foreign new three_bytes (9 ∷ 9 ∷ 9 ∷ 9 ∷ []) (replicate 9 7 ∷ []) three_bytes_symbol
      refl (λ e. cc) refl

abbrev first_frame : Bytes
first_frame = Beacon.encode three_bytes

abbrev other_symbol : Symbol.SymbolFrame
other_symbol = record three_bytes_symbol {
  packets = (1 ∷ 0 ∷ 0 ∷ 0 ∷ 10 ∷ 20 ∷ 30 ∷ 0 ∷ 0 ∷ []) ∷ [];
}

-- A receiver without a key that has the beacon and a packet, interrupted before the next one.
abbrev interrupted : Receiver
interrupted = (ingest_symbol (ingest_beacon new three_bytes).0 other_symbol).0

interrupted-IsValid : IsValid interrupted
interrupted-IsValid =
    (ingest_symbol-Sound (ingest_beacon new three_bytes).0 other_symbol
      (ingest_beacon-Sound new three_bytes new-IsValid).0).0

resume-SameProgress_example :
    SameProgress
      (ingest (restarted interrupted three_bytes first_frame) last_frame).0
      (ingest interrupted last_frame).0
unfolding ingest_beacon new peek_type Symbol.encode Symbol.decode Beacon.encode Beacon.decode
    mode_byte mode_from_u8 open_frame check_len chunks_exact chunks ingest_symbol absorb_all
    absorb_packet conclude absorb absorb_queued contains feed_unfinished of_session bytes_eq
resume-SameProgress_example =
    resume-SameProgress interrupted three_bytes first_frame last_frame three_bytes_symbol
      interrupted-IsValid refl refl refl refl refl refl

receiver-Refines_example :
    ((frame : Bytes) → Step frame (view keyed) (ingest keyed frame).1 (view (ingest keyed frame).0))
    × ((key : Bytes) → view (set_key keyed key) ≡ record (view keyed) { key = some key })
    × ((session_id : Bytes) (packets : List Bytes)
        → Restores session_id packets (view keyed) (view (restore keyed session_id packets)))
receiver-Refines_example = receiver-Refines keyed keyed-IsValid

abbrev one_packet : Bytes
one_packet = 0 ∷ 0 ∷ 0 ∷ 0 ∷ 10 ∷ 20 ∷ 30 ∷ 0 ∷ 0 ∷ []

abbrev other_packet : Bytes
other_packet = 1 ∷ 0 ∷ 0 ∷ 0 ∷ 10 ∷ 20 ∷ 30 ∷ 0 ∷ 0 ∷ []

-- The second packet comes twice, before and behind the first.
again_and_swapped :
    (i : Bytes)
    → carries (one_packet ∷ other_packet ∷ []) i
      ≡ carries (other_packet ∷ one_packet ∷ other_packet ∷ []) i
unfolding carries
again_and_swapped i = ground arith

absorb_all_unordered_example :
    (p : Receiver × Option Bytes) × (p' : Receiver × Option Bytes) × (absorb_all
        (one_packet ∷ other_packet ∷ [])
        keyed
        none
      ≡ ok p)
    × (absorb_all (other_packet ∷ one_packet ∷ other_packet ∷ []) keyed none ≡ ok p')
    × ((i : Bytes) → contains p.0.ids i ≡ contains p'.0.ids i)
    × (p.0.received ≡ p'.0.received)
unfolding set_key ingest_beacon new
absorb_all_unordered_example =
    absorb_all_unordered (one_packet ∷ other_packet ∷ [])
      (other_packet ∷ one_packet ∷ other_packet ∷ []) keyed three_bytes keyed-IsValid refl
      again_and_swapped
