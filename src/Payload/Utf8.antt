-- ===== src/Payload/Utf8.antt =====
-- UTF-8, as Rust's `as_bytes` and `from_utf8` have it.
use rabaska.Prelude.{
  ℕ, zero, suc, ◌≡◌, ◌≤◌, ◌<◌, ◌+◌, ◌-◌, ◌*◌, ◌/◌, ◌%◌, refl, Option, none, some, Bool, ◌&&◌, [],
  ◌∷◌, ◌++◌, length, All, ltb, ◌==◌, if◌then◌else◌, arith, ◌⊎◌, lt→ltb, le→ltb, ltb→lt,
  ltb-false→le, Bool-cases, inl, inr, length-append, All-append,
}
use rabaska.Prelude.Bytes.{Bytes, IsByte}
use rabaska.Payload.Text.{Text, in_range}

-- A Rust `char`: a code point that is no surrogate.
abbrev pub IsScalar : ℕ → Type 0
IsScalar c = (c < 0xD800) ⊎ ((0xE000 ≤ c) × (c < 0x11_0000))

-- The bytes of one `char`.
unfoldable pub utf8_char : ℕ → Bytes
utf8_char c =
    if ltb c 0x80
    then c ∷ []
    else if ltb c 0x800
    then (0xC0 + c / 64) ∷ (0x80 + c % 64) ∷ []
    else if ltb c 0x1_0000
    then (0xE0 + c / 4096) ∷ (0x80 + c / 64 % 64) ∷ (0x80 + c % 64) ∷ []
    else (0xF0 + c / 262_144) ∷ (0x80 + c / 4096 % 64) ∷ (0x80 + c / 64 % 64) ∷ (0x80 + c % 64) ∷ []

-- `s.as_bytes()`
abbrev pub utf8 : Text → Bytes
utf8 [] = []
utf8 (c ∷ cs) = utf8_char c ++ utf8 cs

-- Whether a byte continues a character.
abbrev pub continues : ℕ → Bool
continues b = in_range 0x80 0xBF b

-- The second byte is restricted where the character would be overlong, a surrogate or too large.
abbrev pub low_second : ℕ → ℕ
low_second a = if a == 0xE0 then 0xA0 else if a == 0xF0 then 0x90 else 0x80

abbrev pub high_second : ℕ → ℕ
high_second a = if a == 0xED then 0x9F else if a == 0xF4 then 0x8F else 0xBF

-- The bytes behind a first byte of a character of two, three or four.
unfoldable pub two : ℕ → Bytes → Option (ℕ × Bytes)
two a [] = none
two a (b ∷ bs) = if continues b then some ((a - 0xC0) * 64 + (b - 0x80), bs) else none

unfoldable pub three : ℕ → Bytes → Option (ℕ × Bytes)
three a [] = none
three a (b ∷ []) = none
three a (b ∷ c ∷ bs) =
    if in_range (low_second a) (high_second a) b && continues c
    then some ((a - 0xE0) * 4096 + (b - 0x80) * 64 + (c - 0x80), bs)
    else none

unfoldable pub four : ℕ → Bytes → Option (ℕ × Bytes)
four a [] = none
four a (b ∷ []) = none
four a (b ∷ c ∷ []) = none
four a (b ∷ c ∷ d ∷ bs) =
    if in_range (low_second a) (high_second a) b && continues c && continues d
    then some ((a - 0xF0) * 262_144 + (b - 0x80) * 4096 + (c - 0x80) * 64 + (d - 0x80), bs)
    else none

-- A character that is well formed is read off, with the bytes behind it.
unfoldable pub next_char : Bytes → Option (ℕ × Bytes)
unfolding two three four
next_char [] = none
next_char (a ∷ bs) =
    if ltb a 0x80
    then some (a, bs)
    else if in_range 0xC2 0xDF a
    then two a bs
    else if in_range 0xE0 0xEF a
    then three a bs
    else if in_range 0xF0 0xF4 a
    then four a bs
    else none

-- With a character at least read in each round, the count of bytes is fuel enough.
unfoldable pub from_utf8_in : ℕ → Bytes → Option Text
from_utf8_in fuel [] = some []
from_utf8_in zero (b ∷ bs) = none
from_utf8_in (suc fuel) (b ∷ bs) = elim (next_char (b ∷ bs)) [
  | none ↦ none
  | some (c, rest) ↦ elim (from_utf8_in fuel rest) [ none ↦ none | some cs ↦ some (c ∷ cs) ]
]

-- `std::str::from_utf8(bs).ok()`
unfoldable pub from_utf8 : Bytes → Option Text
unfolding from_utf8_in
from_utf8 bs = from_utf8_in (length bs) bs

one_byte : (c : ℕ) (rest : Bytes) → c < 0x80 → next_char (utf8_char c ++ rest) ≡ some (c, rest)
unfolding next_char utf8_char
one_byte c rest h = rw (lt→ltb c 0x80 h) (ground arith)

two_bytes :
    (c : ℕ) (rest : Bytes) → 0x80 ≤ c → c < 0x800 → next_char (utf8_char c ++ rest) ≡ some (c, rest)
unfolding next_char utf8_char
two_bytes c rest h k =
    let value : (0xC0 + c / 64 - 0xC0) * 64 + (0x80 + c % 64 - 0x80) ≡ c = omega arith in
    rw (le→ltb c 0x80 h, lt→ltb c 0x800 k) (ground (arith, value))

three_bytes :
    (c : ℕ) (rest : Bytes)
    → 0x800 ≤ c
    → c < 0x1_0000
    → IsScalar c
    → next_char (utf8_char c ++ rest) ≡ some (c, rest)
unfolding next_char utf8_char
three_bytes c rest h k s =
    let value : (0xE0 + c / 4096 - 0xE0) * 4096
          + (0x80 + c / 64 % 64 - 0x80) * 64
          + (0x80 + c % 64 - 0x80)
        ≡ c =
      omega arith in
    rw (le→ltb c 0x80 (omega arith), le→ltb c 0x800 h, lt→ltb c 0x1_0000 k) (ground (arith, value))

four_bytes :
    (c : ℕ) (rest : Bytes)
    → 0x1_0000 ≤ c
    → c < 0x11_0000
    → next_char (utf8_char c ++ rest) ≡ some (c, rest)
unfolding next_char utf8_char
four_bytes c rest h k =
    let value : (0xF0 + c / 262_144 - 0xF0) * 262_144
          + (0x80 + c / 4096 % 64 - 0x80) * 4096
          + (0x80 + c / 64 % 64 - 0x80) * 64
          + (0x80 + c % 64 - 0x80)
        ≡ c =
      omega arith in
    rw (le→ltb c 0x80 (omega arith), le→ltb c 0x800 (omega arith), le→ltb c 0x1_0000 h)
      (ground (arith, value))

next_char-utf8_char :
    (c : ℕ) (rest : Bytes) → IsScalar c → next_char (utf8_char c ++ rest) ≡ some (c, rest)
next_char-utf8_char c rest s = elim (Bool-cases (ltb c 0x80)) [
  | inl h ↦ one_byte c rest (ltb→lt c 0x80 h)
  | inr h ↦ elim (Bool-cases (ltb c 0x800)) [
    | inl k ↦ two_bytes c rest (ltb-false→le c 0x80 h) (ltb→lt c 0x800 k)
    | inr k ↦ elim (Bool-cases (ltb c 0x1_0000)) [
      | inl l ↦ three_bytes c rest (ltb-false→le c 0x800 k) (ltb→lt c 0x1_0000 l) s
      | inr l ↦ let low = ltb-false→le c 0x1_0000 l in four_bytes c rest low (omega arith)
    ]
  ]
]

length-utf8_char : (c : ℕ) → (1 ≤ length (utf8_char c)) × (length (utf8_char c) ≤ 4)
unfolding utf8_char
length-utf8_char c = ground arith

from_utf8_in_step :
    (fuel : ℕ) (bs : Bytes) {c : ℕ} {rest : Bytes} {cs : Text}
    → 0 < length bs
    → next_char bs ≡ some (c, rest)
    → from_utf8_in fuel rest ≡ some cs
    → from_utf8_in (suc fuel) bs ≡ some (c ∷ cs)
unfolding from_utf8_in
from_utf8_in_step fuel [] pos read more = absurd (omega arith)
from_utf8_in_step fuel (b ∷ bs) pos read more = rw (from_utf8_in, read, more)

from_utf8_in-utf8 :
    (cs : Text) (fuel : ℕ)
    → All IsScalar cs
    → length (utf8 cs) ≤ fuel
    → from_utf8_in fuel (utf8 cs) ≡ some cs
unfolding from_utf8_in
from_utf8_in-utf8 [] zero s le = refl
from_utf8_in-utf8 [] (suc fuel) s le = refl
from_utf8_in-utf8 (c ∷ cs) zero s le =
    absurd (omega (arith, length-append (utf8_char c) (utf8 cs), length-utf8_char c))
from_utf8_in-utf8 (c ∷ cs) (suc fuel) s le =
    let long = length-append (utf8_char c) (utf8 cs) in
    let some_byte = length-utf8_char c in
    from_utf8_in_step fuel (utf8_char c ++ utf8 cs) (omega arith)
      (next_char-utf8_char c (utf8 cs) s.0) (from_utf8_in-utf8 cs fuel s.1 (omega arith))

-- What is written as UTF-8 is read back.
pub from_utf8-utf8 : (cs : Text) → All IsScalar cs → from_utf8 (utf8 cs) ≡ some cs
unfolding from_utf8
from_utf8-utf8 cs s = from_utf8_in-utf8 cs (length (utf8 cs)) s (omega arith)

utf8_char-IsByte : (c : ℕ) → IsScalar c → All IsByte (utf8_char c)
unfolding utf8_char
utf8_char-IsByte c s = ground arith

pub utf8-IsByte : (cs : Text) → All IsScalar cs → All IsByte (utf8 cs)
utf8-IsByte [] s = tt
utf8-IsByte (c ∷ cs) s =
    All-append IsByte (utf8_char c) (utf8 cs) (utf8_char-IsByte c s.0) (utf8-IsByte cs s.1)

pub length-utf8 : (cs : Text) → (length cs ≤ length (utf8 cs)) × (length (utf8 cs) ≤ 4 * length cs)
length-utf8 [] = (omega arith, omega arith)
length-utf8 (c ∷ cs) =
    omega (arith, length-append (utf8_char c) (utf8 cs), length-utf8_char c, length-utf8 cs)
