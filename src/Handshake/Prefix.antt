-- ===== src/Handshake/Prefix.antt =====
-- core/src/wasm.rs: `hex4`, `decode_sid4` and `Receive::restore`. A string is its UTF-8 bytes.
pub mod RoundTrip
use rabaska.Prelude.{
  ℕ, zero, suc, ◌≡◌, ◌≢◌, ◌≤◌, ◌<◌, ◌+◌, ◌-◌, ◌*◌, ◌/◌, ◌%◌, ◌⊎◌, inl, inr, refl, sym, ap, ap₂, ◌∙◌,
  Option, none, some, Bool, true, false, not, ◌&&◌, ◌||◌, List, [], ◌∷◌, ◌++◌, length, All, get_or,
  ltb, leb, ◌==◌, if◌then◌else◌, arith, Bool-cases, Option-cases, subst, ltb-false→le,
}
use rabaska.Prelude.Bytes.{Bytes, IsByte, IsArray, slice, byte_at, slice-IsArray}
use rabaska.Payload.Text.{in_range}
use rabaska.Payload.Utf8.{continues}
use rabaska.Wire.Beacon.{Beacon}
use rabaska.Pipeline.Services.{Fountain}
use rabaska.Pipeline.Receiver as Rx
use rabaska.Handshake.{JsResult, returns, throws, panics, bad_session_id}
use rabaska.Handshake.Receive.{Receive}

-- A digit of `{:02x}`.
abbrev pub hex_digit : ℕ → ℕ
hex_digit d = if ltb d 10 then b'0' + d else b'a' + (d - 10)

unfoldable pub hex4_of : Bytes → Bytes
hex4_of [] = []
hex4_of (b ∷ bs) = hex_digit (b / 16) ∷ hex_digit (b % 16) ∷ hex4_of bs

unfoldable pub hex4 : Bytes → Bytes
unfolding hex4_of
hex4 sid = hex4_of (slice 0 4 sid)

-- `char::to_digit(16)`
unfoldable pub to_digit : ℕ → Option ℕ
to_digit c =
    if in_range b'0' b'9' c
    then some (c - b'0')
    else if in_range b'a' b'f' c
    then some (c - b'a' + 10)
    else if in_range b'A' b'F' c
    then some (c - b'A' + 10)
    else none

-- `u8::from_str_radix(_, 16)` on a string of two bytes; a plus sign may lead.
unfoldable pub radix_16 : ℕ → ℕ → Option ℕ
unfolding to_digit
radix_16 a b = if a == b'+' then to_digit b else elim (to_digit a) [
  | none ↦ none
  | some hi ↦ elim (to_digit b) [ none ↦ none | some lo ↦ some (16 * hi + lo) ]
]

-- `str::is_char_boundary`
unfoldable pub is_boundary : Bytes → ℕ → Bool
is_boundary hex i = i == length hex || not (continues (byte_at hex i))

-- The loop from `i` on; a slice of a `str` inside a character panics.
unfoldable pub sid_loop : ℕ → ℕ → Bytes → JsResult Bytes
unfolding radix_16 is_boundary
sid_loop zero i hex = returns []
sid_loop (suc n) i hex = elim (is_boundary hex (i * 2) && is_boundary hex (i * 2 + 2)) [
  | false ↦ panics
  | true ↦ elim (radix_16 (byte_at hex (i * 2)) (byte_at hex (i * 2 + 1))) [
    | none ↦ throws bad_session_id
    | some b ↦ elim (sid_loop n (i + 1) hex) [
      | returns bs ↦ returns (b ∷ bs)
      | throws e ↦ throws e
      | panics ↦ panics
    ]
  ]
]

unfoldable pub decode_sid4 : Bytes → JsResult Bytes
unfolding sid_loop
decode_sid4 hex = elim (length hex == 8) [ false ↦ throws bad_session_id | true ↦ sid_loop 4 0 hex ]

-- `Receive::restore`; `none` is an argument that is no string, and `packets` are the byte arrays among
-- the elements of its second argument.
unfoldable pub restore :
    ⦃fountain : Fountain⦄ → Receive → Option Bytes → List Bytes → Receive × JsResult (Unit {0})
unfolding decode_sid4 Rx.restore
restore r none packets = (r, returns tt)
restore r (some hex) packets = elim (decode_sid4 hex) [
  | throws e ↦ (r, throws e)
  | panics ↦ (r, panics)
  | returns sid ↦ (record r { rx = Rx.restore r.rx sid packets }, returns tt)
]
