-- ===== src/Pipeline/Services.antt =====
-- The crates that core/src/pipeline.rs calls: miniz_oxide and raptorq.
use rabaska.Prelude.{ℕ, ◌≡◌, ◌≤◌, ◌<◌, ◌^◌, Option, some, List, All, length}
use rabaska.Prelude.Bytes.{Bytes, IsArray}

-- `compress_to_vec(_, 9)` and `decompress_to_vec_with_limit`.
pub record Deflate : Type 0 where
  pub compress : Bytes → Bytes
  pub decompress : Bytes → ℕ → Option Bytes
  pub decompress-compress :
      (bs : Bytes) (limit : ℕ) → length bs ≤ limit → decompress (compress bs) limit ≡ some bs

-- The fountain code. `encoded_packets` are the serialized source packets and repair packets,
-- `config` the serialized transmission information of the encoder.
pub record Fountain : Type 1 where
  pub Decoder : Type 0
  pub config : Bytes → ℕ → Bytes
  pub encoded_packets : Bytes → ℕ → List Bytes
  pub transfer_length : Bytes → ℕ
  pub symbol_size : Bytes → ℕ
  pub new_decoder : Bytes → Decoder
  -- `decoder.decode(EncodingPacket::deserialize(packet))`
  pub feed : Decoder → Bytes → Decoder × Option Bytes
  -- The serialized packets of an object have one size, a 4-byte id and a symbol, and there is one at
  -- least.
  pub packet_size : Bytes → ℕ → ℕ
  pub encoded_packets-uniform :
      (object : Bytes) (symbol : ℕ)
      → All (IsArray (packet_size object symbol)) (encoded_packets object symbol)
  pub packet_size_bounds :
      (object : Bytes) (symbol : ℕ)
      → 8 ≤ symbol
      → symbol < 65_532
      → (4 < packet_size object symbol) × (packet_size object symbol < 256 ^ 2)
  pub encoded_packets-ne-nil :
      (object : Bytes) (symbol : ℕ) → 0 < length (encoded_packets object symbol)
  pub config-IsArray : (object : Bytes) (symbol : ℕ) → IsArray 12 (config object symbol)
