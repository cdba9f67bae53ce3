-- ===== src/Payload/Text.antt =====
-- What core/src/payload.rs uses of Rust's `str`: a text is the list of its code points.
use rabaska.Prelude.{
  ℕ, ◌+◌, Option, none, some, Bool, true, false, ◌||◌, ◌&&◌, List, [], ◌∷◌, ltb, leb, ◌==◌,
  if◌then◌else◌,
}

-- A `&str` or a `String`.
abbrev pub Text : Type 0
Text = List ℕ

-- `c` in `lo..=hi`
abbrev pub in_range : ℕ → ℕ → ℕ → Bool
in_range lo hi c = leb lo c && leb c hi

-- `char::is_control`: the general category Cc.
unfoldable pub is_control : ℕ → Bool
is_control c = ltb c 0x20 || in_range 0x7F 0x9F c

-- `char::is_whitespace`: the property White_Space.
unfoldable pub is_whitespace : ℕ → Bool
is_whitespace c =
    in_range 0x09 0x0D c
    || c == 0x20
    || c == 0x85
    || c == 0xA0
    || c == 0x1680
    || in_range 0x2000 0x200A c
    || in_range 0x2028 0x2029 c
    || c == 0x202F
    || c == 0x205F
    || c == 0x3000

-- `s.chars().filter(keep).collect()`
abbrev pub filter_by : (ℕ → Bool) → Text → Text
filter_by keep [] = []
filter_by keep (c ∷ cs) = let rest = filter_by keep cs in if keep c then c ∷ rest else rest

-- `s.chars().all(p)`
abbrev pub every : (ℕ → Bool) → Text → Bool
every p [] = true
every p (c ∷ cs) = p c && every p cs

-- `s.trim_start_matches(p)`
abbrev pub trim_start : (ℕ → Bool) → Text → Text
trim_start p [] = []
trim_start p (c ∷ cs) = let rest = trim_start p cs in if p c then rest else c ∷ cs

-- Puts a character in front, unless it is one that the end loses.
abbrev pub keep_unless : (ℕ → Bool) → ℕ → Text → Text
keep_unless p c [] = if p c then [] else c ∷ []
keep_unless p c (d ∷ ds) = c ∷ d ∷ ds

-- `s.trim_end_matches(p)`
abbrev pub trim_end : (ℕ → Bool) → Text → Text
trim_end p [] = []
trim_end p (c ∷ cs) = keep_unless p c (trim_end p cs)

-- `s.trim_matches(p)`; with white space this is `s.trim()`
unfoldable pub trim_matches : (ℕ → Bool) → Text → Text
trim_matches p cs = trim_end p (trim_start p cs)

-- Whether a text has such a character.
abbrev pub any_of : (ℕ → Bool) → Text → Bool
any_of p [] = false
any_of p (c ∷ cs) = p c || any_of p cs

-- `s.rsplit(p).next()`: what stands behind the last separator.
abbrev pub last_part : (ℕ → Bool) → Text → Text
last_part p [] = []
last_part p (c ∷ cs) =
    let rest = last_part p cs in if any_of p cs then rest else if p c then cs else c ∷ cs

-- `s.split(p).next()`: what stands before the first separator.
abbrev pub first_part : (ℕ → Bool) → Text → Text
first_part p [] = []
first_part p (c ∷ cs) = let rest = first_part p cs in if p c then [] else c ∷ rest

-- `s.split_once(c)`
unfoldable pub split_once : ℕ → Text → Option (Text × Text)
split_once sep [] = none
split_once sep (c ∷ cs) =
    let later = split_once sep cs in
    if c == sep then some ([], cs) else elim later [ none ↦ none | some (a, b) ↦ some (c ∷ a, b) ]

-- `s.rsplit_once(c)`
unfoldable pub rsplit_once : ℕ → Text → Option (Text × Text)
rsplit_once sep [] = none
rsplit_once sep (c ∷ cs) = elim (rsplit_once sep cs) [
  | some (a, b) ↦ some (c ∷ a, b)
  | none ↦ if c == sep then some ([], cs) else none
]

-- `s.to_ascii_lowercase()`
abbrev pub to_lower : ℕ → ℕ
to_lower c = if in_range b'A' b'Z' c then c + 32 else c
