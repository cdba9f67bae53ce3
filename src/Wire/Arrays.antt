-- ===== src/Wire/Arrays.antt =====
-- core/src/wire.rs: what the encoders give is a `Vec<u8>` of the announced length.
use rabaska.Prelude.{length}
use rabaska.Prelude.Bytes.{IsArray}
use rabaska.Wire.Types.{pair_req_len, beacon_len, reveal_len, complete_len}
use rabaska.Wire.Frame.{Crc}
use rabaska.Wire.PairReq
use rabaska.Wire.Reveal
use rabaska.Wire.Complete
use rabaska.Wire.Beacon
use rabaska.Wire.Beacon.RoundTrip as BeaconTrip
use rabaska.Wire.Symbol
use rabaska.Wire.Symbol.Packing

module _ ⦃crc : Crc⦄ where
  -- For values with the field widths of the Rust types, and symbol frames that have at most 255 packets, all of
  -- the packet length, which is not 0, what the five encoders give is made of bytes, and has the length of its format: the four
  -- constants, and for packets what frame_size announces.
  pub encoders-IsArray :
      (p : PairReq.PairReq) (b : Beacon.Beacon) (s : Symbol.SymbolFrame) (r : Reveal.Reveal)
      (c : Complete.Complete)
      → PairReq.IsWellFormed p
      → Beacon.IsWellFormed b
      → Symbol.IsWellFormed s
      → Reveal.IsWellFormed r
      → Complete.IsWellFormed c
      → IsArray pair_req_len (PairReq.encode p)
        × IsArray beacon_len (Beacon.encode b)
        × IsArray (Symbol.frame_size (length s.packets) s.packet_len) (Symbol.encode s)
        × IsArray reveal_len (Reveal.encode r)
        × IsArray complete_len (Complete.encode c)
  encoders-IsArray p b s r c wp wb ws wr wc = (
    PairReq.encode-IsArray p wp,
    BeaconTrip.encode-IsArray b wb,
    Packing.encode-IsArray s ws,
    Reveal.encode-IsArray r wr,
    Complete.encode-IsArray c wc,
  )
