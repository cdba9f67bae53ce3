-- ===== src/Payload/Envelope.antt =====
-- core/src/payload.rs: `wrap` and `unwrap`.
use rabaska.Prelude.{
  ℕ, ◌+◌, ◌-◌, ◌%◌, Option, none, some, Bool, false, not, [], ◌∷◌, ◌++◌, length, drop, take, ltb,
  ◌==◌, if◌then◌else◌,
}
use rabaska.Prelude.Bytes.{Bytes, ascii, slice, byte_at, bytes_eq}
use rabaska.Payload.Text.{Text}
use rabaska.Payload.Utf8.{utf8, from_utf8}
use rabaska.Payload.Label.{safe_name, safe_mime}

-- `MAGIC`, `VERSION` and `FIXED`
abbrev pub magic : Bytes
magic = ascii "RBKP"

abbrev pub version : ℕ
version = 1

abbrev pub fixed : ℕ
fixed = 7

pub record Payload : Type 0 where
  pub body : Bytes
  pub name : Option Text
  pub mime : Option Text

-- `unwrap_or_default()`
abbrev pub or_empty : Option Text → Text
or_empty none = []
or_empty (some s) = s

-- `o.and_then(f)`
abbrev pub and_then : Option Text → (Text → Option Text) → Option Text
and_then none f = none
and_then (some s) f = f s

-- The bytes behind the body.
unfoldable pub trailer_of : Bytes → Bytes → Bytes
trailer_of n m = n ++ m ++ (length n % 256) ∷ (length m % 256) ∷ version ∷ magic

unfoldable pub wrap : Bytes → Text → Text → Bytes
unfolding trailer_of
wrap body name mime =
    let n = utf8 (or_empty (safe_name name)) in
    let m = utf8 (or_empty (safe_mime mime)) in body ++ trailer_of n m

-- `bare()`
abbrev pub bare : Bytes → Payload
bare raw = record { body = raw; name = none; mime = none }

-- From `split` on.
unfoldable pub split_at : Bytes → ℕ → ℕ → ℕ → Payload
split_at raw split name_len mime_len = record {
  body = take split raw;
  name = and_then (from_utf8 (slice split (split + name_len) raw)) safe_name;
  mime =
      and_then (from_utf8 (slice (split + name_len) (split + name_len + mime_len) raw)) safe_mime;
}

-- With fewer than `FIXED` bytes the test stops at its first disjunct.
unfoldable pub has_trailer : Bytes → Bool
unfolding bytes_eq
has_trailer raw =
    if ltb (length raw) fixed
    then false
    else if not (bytes_eq (drop (length raw - 4) raw) magic)
    then false
    else byte_at raw (length raw - 5) == version

unfoldable pub unwrap : Bytes → Payload
unfolding has_trailer split_at
unwrap raw =
    if not (has_trailer raw)
    then bare raw
    else let name_len = byte_at raw (length raw - fixed) in
      let mime_len = byte_at raw (length raw - fixed + 1) in
      let trailer = fixed + name_len + mime_len in
      if ltb (length raw) trailer
      then bare raw
      else split_at raw (length raw - trailer) name_len mime_len
