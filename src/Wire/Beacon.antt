-- ===== src/Wire/Beacon.antt =====
-- core/src/wire.rs: the BEACON frame.
pub mod RoundTrip
pub mod Binding
use rabaska.Prelude.{
  ◌≡◌, ◌↔◌, ◌<◌, ◌^◌, refl, ap, sym, some, Bool, List, [], ◌∷◌, ◌++◌, get_or, arith, All, length,
  subst, ℕ, ◌∙◌,
}
use rabaska.Prelude.Bytes.{
  Bytes, ascii, IsByte, IsArray, slice, slices, byte_at, flat, HasWidths, slices-flat, flat-slices,
  length-flat, slice-IsArray, slice_one, byte_at-IsByte, to_le, from_le, to_le-IsArray,
  from_le-to_le, to_le-from_le, from_le_lt,
}
use rabaska.Error.{Result, ok, ◌>>=◌, >>=-eq-ok}
use rabaska.Wire.Types.{
  Mode, mode_byte, mode_from_u8, mode_byte_lt, mode_from_u8-mode_byte, mode_byte-mode_from_u8,
  CodecParams, beacon_len, beacon_type, has_flag, compressed_flag, sender_auth_flag, version,
}
use rabaska.Wire.Frame.{
  Crc, seal_crc, common_header, open_frame, frame, open_frame-frame, frame-open_frame,
}

pub record Beacon : Type 0 where
  pub mode : Mode
  pub flags : ℕ
  pub session_id : Bytes
  pub s_eph_pub : Bytes
  pub nonce : Bytes
  pub plaintext_len : ℕ
  pub oti : Bytes
  pub codec : CodecParams
  pub build_hash : Bytes

-- The Rust types of the fields.
pub record IsWellFormed (b : Beacon) : Type 0 where
  pub flags : IsByte b.flags
  pub session_id : IsArray 8 b.session_id
  pub s_eph_pub : IsArray 32 b.s_eph_pub
  pub nonce : IsArray 24 b.nonce
  pub plaintext_len : b.plaintext_len < 256 ^ 4
  pub oti : IsArray 12 b.oti
  pub symbol_size : b.codec.symbol_size < 256 ^ 2
  pub palette : IsByte b.codec.palette
  pub tile_px : IsByte b.codec.tile_px
  pub build_hash : IsArray 8 b.build_hash

-- What `encode` appends between the header and the CRC.
abbrev pub fields : Beacon → List Bytes
fields b =
    (mode_byte b.mode ∷ [])
    ∷ (b.flags ∷ [])
    ∷ b.session_id
    ∷ b.s_eph_pub
    ∷ b.nonce
    ∷ to_le 4 b.plaintext_len
    ∷ b.oti
    ∷ to_le 2 b.codec.symbol_size
    ∷ (b.codec.palette ∷ [])
    ∷ (b.codec.tile_px ∷ [])
    ∷ b.build_hash
    ∷ []

abbrev pub widths : List ℕ
widths = 1 ∷ 1 ∷ 8 ∷ 32 ∷ 24 ∷ 4 ∷ 12 ∷ 2 ∷ 1 ∷ 1 ∷ 8 ∷ []

abbrev pub of_body : Mode → Bytes → Beacon
of_body m body = record {
  mode = m;
  flags = byte_at body 1;
  session_id = slice 2 10 body;
  s_eph_pub = slice 10 42 body;
  nonce = slice 42 66 body;
  plaintext_len = from_le (slice 66 70 body);
  oti = slice 70 82 body;
  codec = record {
    symbol_size = from_le (slice 82 84 body);
    palette = byte_at body 84;
    tile_px = byte_at body 85;
  };
  build_hash = slice 86 94 body;
}

unfoldable pub compressed : Beacon → Bool
compressed b = has_flag b.flags compressed_flag

unfoldable pub sender_auth : Beacon → Bool
sender_auth b = has_flag b.flags sender_auth_flag

-- `crypto::INFO_AAD`
abbrev pub info_aad : Bytes
info_aad = ascii "rabaska/v2/aad"

-- AEAD associated data: everything but `oti`, `codec` and `build_hash`.
unfoldable pub aad : Beacon → Bytes
aad b = flat (
    info_aad
    ∷ (version ∷ [])
    ∷ (mode_byte b.mode ∷ [])
    ∷ (b.flags ∷ [])
    ∷ b.session_id
    ∷ b.s_eph_pub
    ∷ b.nonce
    ∷ to_le 4 b.plaintext_len
    ∷ [])

module _ ⦃crc : Crc⦄ where
  unfoldable pub encode : Beacon → Bytes
  unfolding frame
  encode b = seal_crc (common_header [] beacon_type ++ flat (fields b))

  unfoldable pub decode : Bytes → Result Beacon
  decode bytes = do
    body ← open_frame bytes beacon_type (some beacon_len)
    mode ← mode_from_u8 (byte_at body 0)
    ok (of_body mode body)
