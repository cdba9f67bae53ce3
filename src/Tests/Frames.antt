-- ===== src/Tests/Frames.antt =====
-- The theorem on the widths of frames, at one frame of each type.
use rabaska.Prelude.{refl, [], ◌∷◌, replicate, arith}
use rabaska.Prelude.Bytes.{IsArray}
use rabaska.Wire.Types.{done, pair_req_len, beacon_len, reveal_len, complete_len}
use rabaska.Wire.PairReq
use rabaska.Wire.Reveal
use rabaska.Wire.Complete
use rabaska.Wire.Beacon
use rabaska.Wire.Symbol
use rabaska.Wire.Arrays.{encoders-IsArray}
use rabaska.Tests.Toys.{toy_crc, array}
use rabaska.Tests.Senders.{a_session, a_beacon, a_beacon-IsWellFormed}

abbrev one_pair_req : PairReq.PairReq
one_pair_req = record {
  flags = 1;
  session_id = a_session;
  r_eph_pub = replicate 32 9;
  id_hint = replicate 4 7;
  r_commit = replicate 16 5;
}

abbrev one_symbol : Symbol.SymbolFrame
one_symbol = record {
  sid4 = replicate 4 1;
  frame_id = 6;
  packet_len = 3;
  packets = replicate 3 1 ∷ replicate 3 2 ∷ [];
}

abbrev one_reveal : Reveal.Reveal
one_reveal = record { sid4 = replicate 4 1; r_nonce = replicate 16 5 }

abbrev one_complete : Complete.Complete
one_complete = record { sid4 = replicate 4 1; status = done; hash8 = replicate 8 5 }

encoders-IsArray_example :
    IsArray pair_req_len (PairReq.encode one_pair_req)
    × IsArray beacon_len (Beacon.encode a_beacon)
    × IsArray (Symbol.frame_size 2 3) (Symbol.encode one_symbol)
    × IsArray reveal_len (Reveal.encode one_reveal)
    × IsArray complete_len (Complete.encode one_complete)
encoders-IsArray_example =
    encoders-IsArray one_pair_req a_beacon one_symbol one_reveal one_complete
      (record {
        flags = omega arith;
        session_id = array 8 a_session refl;
        r_eph_pub = array 32 (replicate 32 9) refl;
        id_hint = array 4 (replicate 4 7) refl;
        r_commit = array 16 (replicate 16 5) refl;
      })
      a_beacon-IsWellFormed
      (record {
        sid4 = array 4 (replicate 4 1) refl;
        frame_id = omega arith;
        packet_len = omega arith;
        not_empty = omega arith;
        count = omega arith;
        packets = (array 3 (replicate 3 1) refl, (array 3 (replicate 3 2) refl, tt));
      })
      (record { sid4 = array 4 (replicate 4 1) refl; r_nonce = array 16 (replicate 16 5) refl })
      (record { sid4 = array 4 (replicate 4 1) refl; hash8 = array 8 (replicate 8 5) refl })
