-- ===== src/Harness/Vectors/Reading.antt =====
-- harness/src/main.rs: reading the vectors that `cmd_vectors` prints: a line holds a label and a string.
use rabaska.Prelude.{
  ℕ, ◌≡◌, ◌/◌, ◌%◌, ◌∙◌, refl, ap, arith, Option, none, some, List, [], ◌∷◌, ◌++◌, All, ◌==◌,
  if◌then◌else◌,
}
use rabaska.Prelude.Bytes.{Bytes, IsByte, ascii}
use rabaska.Handshake.Prefix.{hex_digit, radix_16}
use rabaska.Handshake.Prefix.RoundTrip.{radix_16-hex_digit}
use rabaska.Harness.Vectors.{hex}

-- The bytes of the hex digits at the front.
unfoldable pub unhex : Bytes → Bytes
unhex [] = []
unhex (h ∷ []) = []
unhex (h ∷ l ∷ rest) =
    let more = unhex rest in elim (radix_16 h l) [ none ↦ [] | some b ↦ b ∷ more ]

abbrev pub strip : Bytes → Bytes → Option Bytes
strip [] bs = some bs
strip (p ∷ ps) [] = none
strip (p ∷ ps) (b ∷ bs) = let rest = strip ps bs in if p == b then rest else none

abbrev pub skip_spaces : Bytes → Bytes
skip_spaces [] = []
skip_spaces (c ∷ cs) = let rest = skip_spaces cs in if c == b' ' then rest else c ∷ cs

-- The string behind a label, up to the quote that ends it.
abbrev pub value : Bytes → Bytes → Option Bytes
value label line = elim (strip (b'"' ∷ label ++ b'"' ∷ b':' ∷ []) (skip_spaces line)) [
  | none ↦ none
  | some rest ↦ elim (strip (b'"' ∷ []) (skip_spaces rest)) [
    | none ↦ none
    | some quoted ↦ some (unhex quoted)
  ]
]

-- The bytes that the first line with a label holds.
abbrev pub field : Bytes → List Bytes → Option Bytes
field label [] = none
field label (line ∷ out) =
    let later = field label out in elim (value label line) [ none ↦ later | some v ↦ some v ]

unhex_step :
    (h l b : ℕ) (rest : Bytes) → radix_16 h l ≡ some b → unhex (h ∷ l ∷ rest) ≡ b ∷ unhex rest
unfolding unhex
unhex_step h l b rest digits = ground arith

unhex-hex : (bs rest : Bytes) → All IsByte bs → unhex rest ≡ [] → unhex (hex bs ++ rest) ≡ bs
unfolding hex
unhex-hex [] rest h end = end
unhex-hex (b ∷ bs) rest h end =
    unhex_step (hex_digit (b / 16)) (hex_digit (b % 16)) b (hex bs ++ rest)
      (radix_16-hex_digit b h.0)
    ∙ ap (λ t. b ∷ t) (unhex-hex bs rest h.1 end)

-- What stands behind a string.
pub unhex_quote : unhex (ascii "\"") ≡ []
unfolding unhex
unhex_quote = refl

pub unhex_comma : unhex (ascii "\",") ≡ []
unfolding unhex radix_16
unhex_comma = refl

-- A string of hex digits is read back.
pub read_hex :
    (label : Bytes) (out : List Bytes) (bs rest : Bytes)
    → field label out ≡ some (unhex (hex bs ++ rest))
    → All IsByte bs
    → unhex rest ≡ []
    → field label out ≡ some bs
read_hex label out bs rest found bytes end = rw found (ap some (unhex-hex bs rest bytes end))
