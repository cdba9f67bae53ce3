-- ===== src/Wire/Symbol.antt =====
-- core/src/wire.rs: the SYMBOL frame.
pub mod Chunks
pub mod Body
pub mod RoundTrip
pub mod Packing
use rabaska.Prelude.{
  ◌≡◌, ◌≤◌, ◌<◌, ◌+◌, ◌-◌, ◌*◌, ◌/◌, ◌%◌, ◌^◌, none, List, [], ◌∷◌, ◌++◌, All, length, drop, min, ℕ,
  not, ltb, ◌==◌, if◌then◌else◌,
}
use rabaska.Prelude.Bytes.{Bytes, IsArray, slice, byte_at, flat, to_le, from_le}
use rabaska.Error.{Result, ok, panic, ◌>>=◌, ◌>>◌, ensure, truncated}
use rabaska.Wire.Types.{symbol_overhead, symbol_type}
use rabaska.Wire.Frame.{Crc, seal_crc, common_header, open_frame, frame}
use Chunks.{chunks_exact}

pub record SymbolFrame : Type 0 where
  pub sid4 : Bytes
  pub frame_id : ℕ
  pub packet_len : ℕ
  pub packets : List Bytes

-- The Rust types of the fields, the two `debug_assert`s of `encode`, and packets that are not empty.
pub record IsWellFormed (s : SymbolFrame) : Type 0 where
  pub sid4 : IsArray 4 s.sid4
  pub frame_id : s.frame_id < 256 ^ 4
  pub packet_len : s.packet_len < 256 ^ 2
  pub not_empty : 0 < s.packet_len
  pub count : length s.packets ≤ 255
  pub packets : All (IsArray s.packet_len) s.packets

-- What `encode` appends between the header and the CRC.
abbrev pub fields : SymbolFrame → List Bytes
fields s =
    s.sid4 ∷ to_le 4 s.frame_id ∷ (length s.packets % 256 ∷ []) ∷ to_le 2 s.packet_len ∷ s.packets

module _ ⦃crc : Crc⦄ where
  -- A release build: the two `debug_assert`s are not checked.
  unfoldable pub encode : SymbolFrame → Bytes
  unfolding frame
  encode s = seal_crc (common_header [] symbol_type ++ flat (fields s))

  unfoldable pub decode : Bytes → Result SymbolFrame
  decode bytes = do
    ensure (not (ltb (length bytes) symbol_overhead)) (truncated symbol_overhead (length bytes))
    body ← open_frame bytes symbol_type none
    let count = byte_at body 8
    let packet_len = from_le (slice 9 11 body)
    let need = 11 + count * packet_len
    ensure (length body == need) (truncated (need + symbol_overhead - 11) (length bytes))
    packets ← chunks_exact packet_len (drop 11 body)
    ok (record {
      sid4 = slice 0 4 body;
      frame_id = from_le (slice 4 8 body);
      packet_len = packet_len;
      packets = packets;
    })

unfoldable pub frame_size : ℕ → ℕ → ℕ
frame_size count packet_len = symbol_overhead + count * packet_len

-- `checked_div` gives `None` on 0, and `unwrap_or(0)` makes that 0.
unfoldable pub packets_per_frame : ℕ → ℕ → ℕ
packets_per_frame capacity packet_len =
    min (if packet_len == 0 then 0 else (capacity - symbol_overhead) / packet_len) 255
