-- ===== src/Wire/Symbol/Packing.antt =====
-- core/src/wire.rs: `frame_size` and `packets_per_frame`.
use rabaska.Prelude.{ℕ, ◌≡◌, ◌≤◌, ◌<◌, ◌+◌, ◌-◌, ◌*◌, ◌/◌, min, length, arith}
use rabaska.Wire.Types.{symbol_overhead, symbol_type}
use rabaska.Wire.Frame.{Crc, frame-IsArray}
use rabaska.Wire.Symbol.{SymbolFrame, IsWellFormed, fields, encode, frame_size, packets_per_frame}
use rabaska.Wire.Symbol.Body.{body-IsArray}
use rabaska.Prelude.Bytes.{flat, IsArray}
use native.Mathlib.Nat.{le_trans}

module _ ⦃crc : Crc⦄ where
  -- The bytes of an encoded frame are as many as `frame_size` announces.
  pub encode-IsArray :
      (s : SymbolFrame)
      → IsWellFormed s
      → IsArray (frame_size (length s.packets) s.packet_len) (encode s)
  unfolding encode frame_size
  encode-IsArray s w =
      let (len, bs) =
        frame-IsArray (11 + length s.packets * s.packet_len) symbol_type (flat (fields s))
          (omega arith) (body-IsArray s w) in
      (omega arith, bs)

mul_mono : (a b n : ℕ) → a ≤ b → a * n ≤ b * n
mul_mono a b n h = grind arith

-- The quotient `q`, cut off at 255, as the count of packets of `n` bytes in `room` bytes.
quotient_bounds :
    (room n : ℕ)
    → (0 < n)
    → (min (room / n) 255 * n ≤ room)
      × (min (room / n) 255 < 255 → room < (min (room / n) 255 + 1) * n)
quotient_bounds room n pos =
    let fits : room / n * n ≤ room = grind arith in
    let next : room < (room / n + 1) * n = grind arith in
    (
      le_trans (mul_mono (min (room / n) 255) (room / n) n (omega arith)) fits,
      λ lt. let e : min (room / n) 255 ≡ room / n = omega arith in rw e next,
    )

-- The count of packets is the largest that fits the capacity, up to the 255 that its byte can hold:
-- it never exceeds 255, a frame of so many packets fits if there is any, and one packet more does not.
pub packets_per_frame_bounds :
    (capacity packet_len : ℕ)
    → (packets_per_frame capacity packet_len ≤ 255)
      × (0 < packets_per_frame capacity packet_len
          → frame_size (packets_per_frame capacity packet_len) packet_len ≤ capacity)
      × (0 < packet_len
          → packets_per_frame capacity packet_len < 255
          → capacity < frame_size (packets_per_frame capacity packet_len + 1) packet_len)
unfolding packets_per_frame frame_size
packets_per_frame_bounds capacity packet_len =
    ground (arith, quotient_bounds (capacity - symbol_overhead) packet_len)
