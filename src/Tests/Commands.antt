-- ===== src/Tests/Commands.antt =====
-- The theorems on the commands, at the toy crates.
use rabaska.Prelude.{
  ℕ, List, ◌≡◌, ◌/◌, ◌%◌, ◌^◌, refl, none, true, [], ◌∷◌, length, replicate, arith,
}
use rabaska.Prelude.Bytes.{Bytes, IsArray, to_le, from_le, flat, to_le-IsArray, array}
use rabaska.Error.{ok}
use rabaska.Wire.Types.{pair, default_codec}
use rabaska.Crypto.Keys.{encrypt}
use rabaska.Pipeline.Compress.{maybe_compress}
use rabaska.Crypto.Human.{from_be}
use rabaska.Pipeline.Services.{Fountain}
use rabaska.Pipeline.Transmitter as Tx
use rabaska.Pipeline.Transmitter.{TransmitConfig}
use rabaska.Pipeline.Transfer.Sending.{sent_object}
use rabaska.Handshake.{Send}
use rabaska.Handshake.Getters as Getters
use rabaska.Harness.Commands.{wire_key, wire_config, wire_bytes}
use rabaska.Harness.WireBytes.{StartsWithLength, wire_bytes_lem}
use rabaska.Harness.Vectors.{cmd_vectors}
use rabaska.Harness.Vectors.Sound.{
  GivesBytes, PrintsKeys, PrintsSealed, PrintsFrames, PrintsCommitted, cmd_vectors_read_back,
}
use rabaska.Tests.Toys.{toy_crc, toy_primitives, toy_deflate, toy_fountain}

toy_GivesBytes : GivesBytes
toy_GivesBytes = record {
  hkdf = λ ikm salt info. (to_le-IsArray 32 (from_le (flat (salt ∷ ikm ∷ info ∷ [])))).1;
  aead_encrypt = λ key nonce aad m bytes. bytes;
}

cmd_vectors_read_back_example :
    (out : List Bytes) × (cmd_vectors ≡ ok out)
    × PrintsKeys out
    × PrintsSealed out
    × PrintsFrames out
    × PrintsCommitted out
cmd_vectors_read_back_example =
    cmd_vectors_read_back toy_GivesBytes (array 32 (replicate 32 0x11) refl)
      (array 32 (replicate 32 0x33) refl)

-- The length in five bytes, big-endian, and seven more bytes.
abbrev be_config : Bytes → ℕ → Bytes
be_config object symbol =
    let n = length object in
    (n / 256 ^ 4 % 256)
    ∷ (n / 256 ^ 3 % 256)
    ∷ (n / 256 ^ 2 % 256)
    ∷ (n / 256 % 256)
    ∷ (n % 256)
    ∷ to_le 7 symbol

be_config-IsArray : (object : Bytes) (symbol : ℕ) → IsArray 12 (be_config object symbol)
be_config-IsArray object symbol =
    let rest = to_le-IsArray 7 symbol in
    (
      omega (arith, rest.0),
      (omega arith, (omega arith, (omega arith, (omega arith, (omega arith, rest.1))))),
    )

abbrev be_fountain : Fountain
be_fountain = record toy_fountain { config = be_config; config-IsArray = be_config-IsArray }

be_fountain-StartsWithLength : StartsWithLength ⦃fountain = be_fountain⦄
unfolding from_be
be_fountain-StartsWithLength = record { config = λ object symbol lt. omega arith }

abbrev a_config : TransmitConfig
a_config = record {
  mode = pair;
  session_id = replicate 8 1;
  s_eph_pub = replicate 32 9;
  codec = default_codec;
  build_hash = replicate 8 0;
  frame_capacity = 1200;
  sender_auth = true;
}

abbrev three : Bytes
three = 10 ∷ 20 ∷ 30 ∷ []

abbrev a_send : Send
a_send = record {
  tx = Tx.new ⦃fountain = be_fountain⦄ (replicate 32 1) (replicate 24 3) a_config three;
  sas = none;
  pending = none;
}

wire_bytes_lem_example :
    (wire_bytes ⦃fountain = be_fountain⦄ (replicate 24 3) three
      ≡ ok (
          length
            (sent_object ⦃fountain = be_fountain⦄ wire_key (replicate 24 3) wire_config three)))
    × (Getters.wire_bytes a_send
        ≡ length
            (sent_object ⦃fountain = be_fountain⦄ (replicate 32 1) (replicate 24 3) a_config three))
unfolding encrypt maybe_compress
wire_bytes_lem_example =
    wire_bytes_lem ⦃fountain = be_fountain⦄ (replicate 24 3) three (replicate 32 1) (replicate 24 3)
      a_config a_send be_fountain-StartsWithLength (array 24 (replicate 24 3) refl) (omega arith)
      refl (omega arith)
