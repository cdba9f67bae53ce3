-- ===== src/Pipeline/Transmitter/Start.antt =====
-- core/src/pipeline.rs: a transmitter is valid from the start.
use rabaska.Prelude.{
  ℕ, ◌≡◌, ◌≤◌, ◌<◌, ◌%◌, ◌^◌, refl, sym, subst, ap, ◌∙◌, Bool, true, false, List, [], ◌∷◌, length,
  All, arith,
}
use native.Mathlib.Nat.{mod-eq_of_lt}
use rabaska.Prelude.Bytes.{Bytes, IsByte, IsArray}
use rabaska.Wire.Frame.{Crc}
use rabaska.Wire.Beacon.{aad}
use rabaska.Crypto.Primitives.{Primitives}
use rabaska.Crypto.Keys.{encrypt}
use rabaska.Pipeline.Services.{Deflate, Fountain}
use rabaska.Pipeline.Compress.{maybe_compress}
use rabaska.Pipeline.Transmitter.{TransmitConfig, flags_of, first_len, unsent_beacon, new}
use rabaska.Pipeline.Transmitter.Validity.{IsValid, next_frame_at_le}

-- The Rust types of the fields, and a symbol size that the fountain code takes.
pub record IsUsable (cfg : TransmitConfig) : Type 0 where
  pub session_id : IsArray 8 cfg.session_id
  pub s_eph_pub : IsArray 32 cfg.s_eph_pub
  pub build_hash : IsArray 8 cfg.build_hash
  pub symbol_size_min : 8 ≤ cfg.codec.symbol_size
  pub symbol_size_max : cfg.codec.symbol_size < 65_532
  pub palette : IsByte cfg.codec.palette
  pub tile_px : IsByte cfg.codec.tile_px

flags_of-IsByte : (compressed sender_auth : Bool) → IsByte (flags_of compressed sender_auth)
unfolding flags_of
flags_of-IsByte true true = omega arith
flags_of-IsByte true false = omega arith
flags_of-IsByte false true = omega arith
flags_of-IsByte false false = omega arith

first_len_uniform :
    (w symbol : ℕ) (ps : List Bytes)
    → w < 256 ^ 2
    → 0 < length ps
    → All (IsArray w) ps
    → first_len ps symbol ≡ w
unfolding first_len
first_len_uniform w symbol [] lt pos uniform = absurd (omega arith)
first_len_uniform w symbol (p ∷ ps) lt pos uniform =
    ap (λ n. n % 256 ^ 2) uniform.0.0 ∙ mod-eq_of_lt lt

module _ ⦃crc : Crc⦄ ⦃prim : Primitives⦄ ⦃deflate : Deflate⦄ ⦃fountain : Fountain⦄ where
  -- Whatever the key and the payload, the transmitter that `new` makes from a nonce of 24 bytes and a
  -- usable configuration is valid.
  pub sender_new-IsValid :
      (key nonce : Bytes) (cfg : TransmitConfig) (plaintext : Bytes)
      → IsUsable cfg
      → IsArray 24 nonce
      → IsValid (new key nonce cfg plaintext)
  unfolding new unsent_beacon
  sender_new-IsValid key nonce cfg plaintext u hn =
      let symbol = cfg.codec.symbol_size in
      let unsent = unsent_beacon cfg nonce (maybe_compress plaintext).1 (length plaintext) in
      let ct = encrypt key nonce (aad unsent) (maybe_compress plaintext).0 in
      let packets = fountain.encoded_packets ct symbol in
      let size = fountain.packet_size ct symbol in
      let bounds = fountain.packet_size_bounds ct symbol u.symbol_size_min u.symbol_size_max in
      let uniform = fountain.encoded_packets-uniform ct symbol in
      let some_packet = fountain.encoded_packets-ne-nil ct symbol in
      let len : first_len packets symbol ≡ size =
        first_len_uniform size symbol packets bounds.1 some_packet uniform in
      record {
        beacon = record {
          flags = flags_of-IsByte (maybe_compress plaintext).1 cfg.sender_auth;
          session_id = u.session_id;
          s_eph_pub = u.s_eph_pub;
          nonce = hn;
          plaintext_len = omega arith;
          oti = fountain.config-IsArray ct symbol;
          symbol_size = omega (arith, u.symbol_size_max);
          palette = u.palette;
          tile_px = u.tile_px;
          build_hash = u.build_hash;
        };
        beacon_bytes = refl;
        packets = subst (λ w. All (IsArray w) packets) (sym len) uniform;
        packet_len_pos = omega (arith, len, bounds.0);
        packet_len_lt = omega (arith, len, bounds.1);
        cursor = some_packet;
        frame_id = omega arith;
        interval = omega arith;
        per_frame = next_frame_at_le cfg.frame_capacity (first_len packets symbol);
      }
