-- ===== src/Tests.antt =====
-- The theorems at concrete frames, keys and transmitters.
mod Toys
mod Fountains
mod Senders
mod Frames
mod Receiving
mod Meeting
mod Labels
mod Codes
mod Typing
mod Commands
mod Transferring
mod Exchanging
mod Modes
use rabaska.Prelude.{
  arith, false, ◌+◌, ℕ, ◌≡◌, ◌≢◌, ◌↔◌, ◌⊎◌, inl, ◌≤◌, ◌<◌, refl, Bool, true, none, some, List, [],
  ◌∷◌, ◌++◌, replicate, length, All,
}
use rabaska.Prelude.Bytes.{Bytes, IsByte, ascii, to_le, from_le, slice}
use rabaska.Error.{Result, ok, panic, ◌>>=◌}
use rabaska.Wire.Types.{
  Mode, pair, session, seal, done, default_codec, symbol_type, status_from_u8, status_byte,
  mode_byte,
}
use rabaska.Wire.Frame.{frame}
use rabaska.Wire.PairReq
use rabaska.Wire.Reveal
use rabaska.Wire.Complete
use rabaska.Wire.Beacon
use rabaska.Wire.Beacon.RoundTrip as BeaconTrip
use rabaska.Wire.Beacon.Binding
use rabaska.Wire.Symbol
use rabaska.Wire.Symbol.RoundTrip as SymbolTrip
use rabaska.Wire.Symbol.Packing
use rabaska.Crypto.Keys.{sender, receiver, derive_for_mode}
use rabaska.Crypto.Agreement.{
  Secrets, eph_pair, id_pair, as_peer, receiver_key, derive_for_mode_agree,
}
use rabaska.Crypto.Human.{commit, verify_commit, sas}
use rabaska.Crypto.Commitment.{verify_commit_iff}
use rabaska.Pipeline.Compress.{
  maybe_compress, maybe_decompress, any_magic, is_already_compressed,
  maybe_decompress-maybe_compress,
}
use rabaska.Pipeline.Transmitter.{
  Transmitter, OpticalFrame, beacon_frame, next_frame_packed, stream, hold, release,
  set_beacon_interval, next_frame, next_frame_at,
}
use rabaska.Pipeline.Transmitter.Validity.{IsValid, Shows, next_frame_packed-Shows, methods-IsValid}
use rabaska.Pipeline.Transmitter.Acquire.{HasBeacon, stream-HasBeacon}
use Toys.{toy_crc, toy_primitives, toy_deflate, toy_fountain, are_bytes, array}
use rabaska.Tests.Senders.{
  a_session, a_beacon, a_beacon-IsWellFormed, a_transmitter, a_transmitter-IsValid,
}

decode-Beacon_iff_example :
    (Beacon.decode (Beacon.encode a_beacon) ≡ ok a_beacon)
    ↔ (Beacon.IsWellFormed a_beacon × (Beacon.encode a_beacon ≡ Beacon.encode a_beacon))
unfolding Beacon.encode mode_byte
decode-Beacon_iff_example =
    BeaconTrip.decode-Beacon_iff (Beacon.encode a_beacon) a_beacon
      (are_bytes (Beacon.encode a_beacon) refl)

-- The same beacon with another block of transmission information.
abbrev other_oti : Beacon.Beacon
other_oti = record a_beacon { oti = replicate 12 6 }

other_oti-IsWellFormed : Beacon.IsWellFormed other_oti
other_oti-IsWellFormed =
    let oti = array 12 (replicate 12 6) refl in
    let wf = a_beacon-IsWellFormed in
    record {
      flags = wf.flags;
      session_id = wf.session_id;
      s_eph_pub = wf.s_eph_pub;
      nonce = wf.nonce;
      plaintext_len = wf.plaintext_len;
      oti = oti;
      symbol_size = wf.symbol_size;
      palette = wf.palette;
      tile_px = wf.tile_px;
      build_hash = wf.build_hash;
    }

aad_injective_example :
    (a_beacon.mode ≡ other_oti.mode)
    × (a_beacon.flags ≡ other_oti.flags)
    × (a_beacon.session_id ≡ other_oti.session_id)
    × (a_beacon.s_eph_pub ≡ other_oti.s_eph_pub)
    × (a_beacon.nonce ≡ other_oti.nonce)
    × (a_beacon.plaintext_len ≡ other_oti.plaintext_len)
unfolding Beacon.aad
aad_injective_example =
    Binding.aad_injective a_beacon other_oti a_beacon-IsWellFormed other_oti-IsWellFormed refl

abbrev a_symbol : Symbol.SymbolFrame
a_symbol = record {
  sid4 = slice 0 4 a_session;
  frame_id = 70_000;
  packet_len = 5;
  packets = replicate 5 1 ∷ replicate 5 2 ∷ [];
}

decode-SymbolFrame_iff_example :
    (Symbol.decode (Symbol.encode a_symbol) ≡ ok a_symbol)
    ↔ (Symbol.IsWellFormed a_symbol × (Symbol.encode a_symbol ≡ Symbol.encode a_symbol))
unfolding Symbol.encode
decode-SymbolFrame_iff_example =
    SymbolTrip.decode-SymbolFrame_iff (Symbol.encode a_symbol) a_symbol
      (are_bytes (Symbol.encode a_symbol) refl)

-- A frame that claims seven packets of length 0.
abbrev empty_packets : Bytes
empty_packets = replicate 8 0 ++ 7 ∷ 0 ∷ 0 ∷ []

decode-SymbolFrame-eq-panic_example : (Symbol.decode (frame symbol_type empty_packets) ≡ panic) ↔ (
    (body : Bytes) × All IsByte body
    × SymbolTrip.IsZeroLength body
    × (frame symbol_type empty_packets ≡ frame symbol_type body))
unfolding frame
decode-SymbolFrame-eq-panic_example =
    SymbolTrip.decode-SymbolFrame-eq-panic (frame symbol_type empty_packets)
      (are_bytes (frame symbol_type empty_packets) refl)

packets_per_frame_bounds_example :
    (Symbol.packets_per_frame 1200 325 ≤ 255)
    × (0 < Symbol.packets_per_frame 1200 325
        → Symbol.frame_size (Symbol.packets_per_frame 1200 325) 325 ≤ 1200)
    × (0 < 325
        → Symbol.packets_per_frame 1200 325 < 255
        → 1200 < Symbol.frame_size (Symbol.packets_per_frame 1200 325 + 1) 325)
packets_per_frame_bounds_example = Packing.packets_per_frame_bounds 1200 325

abbrev alice : Secrets
alice = record { eph = replicate 32 1; id = some (replicate 32 2) }

abbrev bob : Secrets
bob = record { eph = replicate 32 3; id = some (replicate 32 4) }

derive_for_mode_agree_example :
    derive_for_mode session sender (eph_pair alice) (id_pair alice) (as_peer bob) a_session ≡ (
      receiver_key session bob >>= λ own.
      derive_for_mode session receiver own (id_pair bob) (as_peer alice) a_session)
derive_for_mode_agree_example = derive_for_mode_agree session alice bob a_session

verify_commit_iff_example :
    (verify_commit a_session (replicate 32 3) (replicate 16 5) (ascii "rabaska/v2/commi") ≡ true)
    ↔ (ascii "rabaska/v2/commi" ≡ commit a_session (replicate 32 3) (replicate 16 5))
verify_commit_iff_example =
    verify_commit_iff a_session (replicate 32 3) (replicate 16 5) (ascii "rabaska/v2/commi")
      (array 16 (ascii "rabaska/v2/commi") refl)

maybe_decompress-maybe_compress_example :
    (maybe_decompress (maybe_compress a_session).0 (maybe_compress a_session).1 ≡ ok a_session)
    × (length (maybe_compress a_session).0 ≤ length a_session)
maybe_decompress-maybe_compress_example =
    maybe_decompress-maybe_compress a_session (inl (omega arith))

-- A transmitter of two packets, held, that shows a beacon every third frame.
next_frame_packed-Shows_example :
    (p : Transmitter × OpticalFrame) × (next_frame_packed (a_transmitter false) 3 ≡ ok p)
    × IsValid p.0
    × Shows (a_transmitter false) 3 p.1
next_frame_packed-Shows_example =
    next_frame_packed-Shows (a_transmitter false) 3 (a_transmitter-IsValid false) (omega arith)

stream-HasBeacon_example :
    (p : Transmitter × List OpticalFrame) × (stream (a_transmitter false) (40 ∷ 9000 ∷ 40 ∷ [])
      ≡ ok p)
    × HasBeacon a_beacon p.1
stream-HasBeacon_example =
    stream-HasBeacon (a_transmitter false) (40 ∷ 9000 ∷ 40 ∷ []) (a_transmitter-IsValid false)
      (omega arith)

methods-IsValid_example :
    IsValid (hold (a_transmitter false))
    × IsValid (release (a_transmitter false))
    × ((n : ℕ) → IsValid (set_beacon_interval (a_transmitter false) n))
    × ((capacity : ℕ)
        → (p : Transmitter × OpticalFrame) × (next_frame_at (a_transmitter false) capacity ≡ ok p)
          × IsValid p.0)
    × ((p : Transmitter × OpticalFrame) × (next_frame (a_transmitter false) ≡ ok p) × IsValid p.0)
methods-IsValid_example = methods-IsValid (a_transmitter false) (a_transmitter-IsValid false)
