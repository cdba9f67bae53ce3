-- ===== src/Wire/Beacon/Binding.antt =====
-- core/src/wire.rs: what the associated data of the AEAD ties down.
use rabaska.Prelude.{All, ◌≡◌, refl, ap, sym, List, [], ◌∷◌, get_or, arith, ℕ, ◌∙◌}
use rabaska.Prelude.Bytes.{
  IsByte, flat-IsArray, Bytes, IsArray, byte_at, slices, HasWidths, slices-flat, to_le, from_le,
  to_le-IsArray, from_le-to_le,
}
use rabaska.Wire.Types.{Mode, mode_byte, mode_byte_lt, mode_from_u8-mode_byte, version}
use rabaska.Wire.Beacon.{Beacon, IsWellFormed, aad, info_aad}

abbrev aad_fields : Beacon → List Bytes
aad_fields b =
    info_aad
    ∷ (version ∷ [])
    ∷ (mode_byte b.mode ∷ [])
    ∷ (b.flags ∷ [])
    ∷ b.session_id
    ∷ b.s_eph_pub
    ∷ b.nonce
    ∷ to_le 4 b.plaintext_len
    ∷ []

abbrev aad_widths : List ℕ
aad_widths = 14 ∷ 1 ∷ 1 ∷ 1 ∷ 8 ∷ 32 ∷ 24 ∷ 4 ∷ []

aad_fields-HasWidths : (b : Beacon) → IsWellFormed b → HasWidths aad_widths (aad_fields b)
aad_fields-HasWidths b w =
    let prefix : IsArray 14 info_aad = omega arith in
    let one : IsArray 1 (version ∷ []) = omega arith in
    assumption (prefix, one, refl, tt, mode_byte_lt b.mode, to_le-IsArray 4 b.plaintext_len)

mode_byte_injective : (m n : Mode) → mode_byte m ≡ mode_byte n → m ≡ n
mode_byte_injective m n e = cc (mode_from_u8-mode_byte m, mode_from_u8-mode_byte n)

pub aad-IsByte : (b : Beacon) → IsWellFormed b → All IsByte (aad b)
unfolding aad
aad-IsByte b w = (flat-IsArray aad_widths (aad_fields b) (aad_fields-HasWidths b w)).1

-- Two well-formed beacons with the same associated data agree in every field but `oti`, `codec` and
-- `build_hash`.
pub aad_injective :
    (b c : Beacon)
    → IsWellFormed b
    → IsWellFormed c
    → aad b ≡ aad c
    → (b.mode ≡ c.mode)
      × (b.flags ≡ c.flags)
      × (b.session_id ≡ c.session_id)
      × (b.s_eph_pub ≡ c.s_eph_pub)
      × (b.nonce ≡ c.nonce)
      × (b.plaintext_len ≡ c.plaintext_len)
unfolding aad
aad_injective b c wb wc e =
    let same : aad_fields b ≡ aad_fields c =
      sym (slices-flat aad_widths (aad_fields b) (aad_fields-HasWidths b wb))
      ∙ ap (slices aad_widths 0) e
      ∙ slices-flat aad_widths (aad_fields c) (aad_fields-HasWidths c wc) in
    let field = λ (k : ℕ). ap (λ (fs : List Bytes). get_or fs k []) same in
    let lens = ap from_le (field 7) in
    (
      mode_byte_injective b.mode c.mode (ap (λ (f : Bytes). byte_at f 0) (field 2)),
      ap (λ (f : Bytes). byte_at f 0) (field 3),
      field 4,
      field 5,
      field 6,
      sym (from_le-to_le 4 b.plaintext_len wb.plaintext_len)
          ∙ lens
          ∙ from_le-to_le 4 c.plaintext_len wc.plaintext_len,
    )
