-- ===== src/Payload/Label.antt =====
-- core/src/payload.rs: `safe_name` and `safe_mime`.
use rabaska.Prelude.{
  ℕ, ◌+◌, ◌-◌, Option, none, some, Bool, false, not, ◌||◌, ◌&&◌, [], ◌∷◌, ◌++◌, length, map, take,
  ltb, leb, ◌==◌, if◌then◌else◌,
}
use rabaska.Prelude.Bytes.{ascii, bytes_eq}
use rabaska.Pipeline.Compress.{starts_with}
use rabaska.Payload.Text.{
  Text, in_range, is_control, is_whitespace, filter_by, every, trim_matches, last_part, first_part,
  split_once, rsplit_once, to_lower,
}
use rabaska.Payload.Utf8.{utf8}

abbrev pub max_name : ℕ
max_name = 96

abbrev pub max_mime : ℕ
max_mime = 64

-- `['/', '\\']`
abbrev pub is_separator : ℕ → Bool
is_separator c = c == b'/' || c == 0x5C

abbrev pub is_dot : ℕ → Bool
is_dot c = c == b'.'

-- `.trim().trim_matches('.').trim()`
unfoldable pub trimmed : Text → Text
unfolding trim_matches is_whitespace
trimmed s = trim_matches is_whitespace (trim_matches is_dot (trim_matches is_whitespace s))

-- `if out.is_empty() { None } else { Some(out) }`
abbrev pub non_empty : Text → Option Text
non_empty [] = none
non_empty (c ∷ cs) = some (c ∷ cs)

-- `!e.is_empty() && e.chars().count() <= 16`
abbrev pub is_extension : Text → Bool
is_extension e = ltb 0 (length e) && leb (length e) 16

-- The match on `trimmed.rsplit_once('.')`: the stem, and the extension if it is kept.
abbrev pub choose_ext : Text → Option (Text × Text) → Text × Option Text
choose_ext s none = (s, none)
choose_ext s (some (stem, e)) = if is_extension e then (stem, some e) else (s, none)

unfoldable pub stem_and_ext : Text → Text × Option Text
unfolding rsplit_once
stem_and_ext s = choose_ext s (rsplit_once b'.' s)

-- The stem cut so that the whole has `MAX_NAME` characters, and the extension behind it.
unfoldable pub shorten : Text × Option Text → Text
shorten (stem, none) = take max_name stem
shorten (stem, some e) = take (max_name - (length e + 1)) stem ++ b'.' ∷ e

-- From `if trimmed.is_empty()` on.
unfoldable pub fit : Text → Option Text
unfolding trimmed stem_and_ext shorten
fit [] = none
fit (c ∷ cs) =
    if leb (length (c ∷ cs)) max_name
    then some (c ∷ cs)
    else non_empty (trimmed (shorten (stem_and_ext (c ∷ cs))))

unfoldable pub safe_name : Text → Option Text
unfolding is_control trimmed fit
safe_name raw =
    let cleaned = filter_by (λ c. not (is_control c)) (last_part is_separator raw) in
    fit (trimmed cleaned)

-- `is_ascii_alphanumeric`
abbrev pub is_alphanumeric : ℕ → Bool
is_alphanumeric c = in_range b'0' b'9' c || in_range b'A' b'Z' c || in_range b'a' b'z' c

-- `"…".contains(c)`
abbrev pub has_char : Text → ℕ → Bool
has_char [] c = false
has_char (d ∷ ds) c = d == c || has_char ds c

unfoldable pub token_char : ℕ → Bool
token_char c = is_alphanumeric c || has_char (ascii "!#$&^_.+-") c

unfoldable pub token_ok : Text → Bool
unfolding token_char
token_ok s = ltb 0 (length s) && every token_char s

-- The last test: the prefixes `SAFE_PREFIX`, or exactly one of `SAFE_EXACT`.
unfoldable pub is_listed : Text → Bool
unfolding starts_with bytes_eq
is_listed base =
    starts_with base (ascii "image/")
    || starts_with base (ascii "audio/")
    || starts_with base (ascii "video/")
    || bytes_eq base (ascii "text/plain")
    || bytes_eq base (ascii "application/pdf")

-- From `let (ty, sub) = …` on.
unfoldable pub split_then : Text → Option (Text × Text) → Option Text
unfolding token_ok is_listed bytes_eq
split_then base none = none
split_then base (some (ty, sub)) =
    if not (token_ok ty) || not (token_ok sub)
    then none
    else if bytes_eq base (ascii "image/svg+xml")
    then none
    else if is_listed base
    then some base
    else none

-- From `base` on.
unfoldable pub allow : Text → Option Text
unfolding split_once split_then
allow base =
    if length base == 0 || ltb max_mime (length (utf8 base))
    then none
    else split_then base (split_once b'/' base)

unfoldable pub safe_mime : Text → Option Text
unfolding trim_matches is_whitespace allow
safe_mime raw = allow (map to_lower (trim_matches is_whitespace (first_part (λ c. c == b';') raw)))
