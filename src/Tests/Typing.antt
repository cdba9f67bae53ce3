-- ===== src/Tests/Typing.antt =====
-- The theorems on prefixes and typed keys.
use rabaska.Prelude.{◌≡◌, ◌<◌, refl, arith, [], ◌∷◌, replicate, All}
use rabaska.Prelude.Bytes.{Bytes, ascii}
use rabaska.Handshake.Prefix.{decode_sid4}
use rabaska.Handshake.Prefix.RoundTrip.{IsPrefixOr, decode_sid4-IsPrefixOr}
use rabaska.Handshake.TypedKey.Injective.{base32_groups_injective}
use rabaska.Tests.Toys.{toy_primitives, array}

abbrev an_id : Bytes
an_id = 0x10 ∷ 0x32 ∷ 0xab ∷ 0xff ∷ 0x98 ∷ 0xba ∷ 0xdc ∷ 0xfe ∷ []

-- A sign leads in the second pair.
abbrev signed : Bytes
signed = ascii "10+2abff"

signed_ascii : All (λ c. c < 0x80) signed
signed_ascii = (
  omega arith,
  (
    omega arith,
    (omega arith, (omega arith, (omega arith, (omega arith, (omega arith, (omega arith, tt)))))),
  ),
)

decode_sid4-IsPrefixOr_example : IsPrefixOr 4 (decode_sid4 signed)
decode_sid4-IsPrefixOr_example = decode_sid4-IsPrefixOr signed signed_ascii

abbrev a_key : Bytes
a_key = replicate 32 0xa7

base32_groups_injective_example : a_key ≡ a_key
base32_groups_injective_example =
    base32_groups_injective a_key a_key (array 32 a_key refl) (array 32 a_key refl) refl
