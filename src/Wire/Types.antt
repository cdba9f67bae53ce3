-- ===== src/Wire/Types.antt =====
-- core/src/wire.rs: constants, modes, statuses and optical parameters.
use rabaska.Prelude.{ℕ, ◌≡◌, ◌<◌, refl, Bool, ◌==◌, if◌then◌else◌, not, bit_and, [], ◌∷◌, arith}
use rabaska.Prelude.Bytes.{Bytes}
use rabaska.Error.{Result, ok, err, bad_mode}

-- `*b"RB"`
abbrev pub magic : Bytes
magic = 0x52 ∷ 0x42 ∷ []

abbrev pub version : ℕ
version = 2

abbrev pub pair_req_len : ℕ
pair_req_len = 69

abbrev pub reveal_len : ℕ
reveal_len = 28

abbrev pub beacon_len : ℕ
beacon_len = 102

abbrev pub complete_len : ℕ
complete_len = 21

abbrev pub symbol_overhead : ℕ
symbol_overhead = 19

-- `mod frame_type`
abbrev pub pair_req_type : ℕ
pair_req_type = 1

abbrev pub beacon_type : ℕ
beacon_type = 2

abbrev pub symbol_type : ℕ
symbol_type = 3

abbrev pub complete_type : ℕ
complete_type = 4

abbrev pub reveal_type : ℕ
reveal_type = 5

-- `mod flags`
abbrev pub compressed_flag : ℕ
compressed_flag = 0b0000_0001

abbrev pub sender_auth_flag : ℕ
sender_auth_flag = 0b0000_0010

abbrev pub has_id_hint_flag : ℕ
has_id_hint_flag = 0b0000_0100

-- `flags & flag != 0`
abbrev pub has_flag : ℕ → ℕ → Bool
has_flag flags flag = not (bit_and flags flag == 0)

pub data Mode : Type 0 where
  pair session seal open_room : Mode

-- `mode as u8`
unfoldable pub mode_byte : Mode → ℕ
mode_byte pair = 1
mode_byte session = 2
mode_byte seal = 3
mode_byte open_room = 4

-- `Mode::from_u8`
unfoldable pub mode_from_u8 : ℕ → Result Mode
mode_from_u8 v =
    if v == 1
    then ok pair
    else if v == 2
    then ok session
    else if v == 3
    then ok seal
    else if v == 4
    then ok open_room
    else err (bad_mode v)

pub mode_from_u8-mode_byte : (m : Mode) → mode_from_u8 (mode_byte m) ≡ ok m
unfolding mode_from_u8 mode_byte
mode_from_u8-mode_byte pair = refl
mode_from_u8-mode_byte session = refl
mode_from_u8-mode_byte seal = refl
mode_from_u8-mode_byte open_room = refl

pub mode_byte-mode_from_u8 : (v : ℕ) (m : Mode) → mode_from_u8 v ≡ ok m → mode_byte m ≡ v
unfolding mode_from_u8 mode_byte
mode_byte-mode_from_u8 v m h = ground arith

pub mode_byte_lt : (m : Mode) → mode_byte m < 256
unfolding mode_byte
mode_byte_lt m = ground arith

pub data Status : Type 0 where
  done hash_mismatch aborted : Status

-- `status as u8`
unfoldable pub status_byte : Status → ℕ
status_byte done = 0
status_byte hash_mismatch = 1
status_byte aborted = 2

-- The `match` of `Complete::decode`.
unfoldable pub status_from_u8 : ℕ → Status
status_from_u8 v = if v == 0 then done else if v == 1 then hash_mismatch else aborted

pub status_from_u8-status_byte : (s : Status) → status_from_u8 (status_byte s) ≡ s
unfolding status_from_u8 status_byte
status_from_u8-status_byte done = refl
status_from_u8-status_byte hash_mismatch = refl
status_from_u8-status_byte aborted = refl

pub status_byte_lt : (s : Status) → status_byte s < 256
unfolding status_byte
status_byte_lt s = ground arith

pub record CodecParams : Type 0 where
  pub symbol_size : ℕ
  pub palette : ℕ
  pub tile_px : ℕ

abbrev pub default_codec : CodecParams
default_codec = record { symbol_size = 321; palette = 0; tile_px = 8 }
