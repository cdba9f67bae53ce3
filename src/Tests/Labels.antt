-- ===== src/Tests/Labels.antt =====
-- The theorems on the payload's envelope at concrete labels.
use rabaska.Prelude.{
  ◌≡◌, ◌≢◌, ◌≤◌, ◌<◌, inl, refl, Bool, true, some, [], ◌∷◌, ◌++◌, length, All, arith, ltb, ◌&&◌,
}
use rabaska.Prelude.Bytes.{are_bytes, Bytes, ascii, bytes_eq}
use rabaska.Pipeline.Compress.{starts_with}
use rabaska.Payload.Text.{Text, is_control, is_whitespace, trim_matches, split_once}
use rabaska.Payload.Utf8.{IsScalar, utf8, utf8_char}
use rabaska.Payload.Label.{
  safe_name, safe_mime, fit, trimmed, allow, split_then, is_listed, max_mime, token_ok, token_char,
}
use rabaska.Payload.Envelope.{and_then, wrap, unwrap}
use rabaska.Payload.Name.{IsTidy, safe_name-IsTidy}
use rabaska.Payload.Mime.{safe_mime-IsSafe}
use rabaska.Payload.RoundTrip.{unwrap-wrap}
use rabaska.Payload.Delivery.{IsDelivery, unwrap-IsDelivery}

abbrev a_path : Text
a_path = ascii "../x/notes.txt"

safe_name-IsTidy_example : IsTidy (ascii "notes.txt")
unfolding safe_name is_control fit trimmed trim_matches is_whitespace
safe_name-IsTidy_example = safe_name-IsTidy a_path (ascii "notes.txt") refl

-- What the trims leave of `. .. .`, in their order.
dots_stay : safe_name (ascii ". .. .") ≡ some (ascii "..")
unfolding safe_name is_control fit trimmed trim_matches is_whitespace
dots_stay = refl

safe_mime-IsSafe_example :
    (is_listed (ascii "text/plain") ≡ true)
    × (ascii "text/plain" ≢ ascii "image/svg+xml")
    × All (λ c. c < 128) (ascii "text/plain")
    × (length (utf8 (ascii "text/plain")) ≤ max_mime)
    × (safe_mime (ascii "text/plain") ≡ some (ascii "text/plain"))
unfolding safe_mime allow split_then split_once token_ok token_char is_listed starts_with bytes_eq
    trim_matches is_whitespace utf8_char
safe_mime-IsSafe_example = safe_mime-IsSafe (ascii " Text/Plain; q=1") (ascii "text/plain") refl

abbrev all_ascii? : Text → Bool
all_ascii? [] = true
all_ascii? (c ∷ cs) = ltb c 128 && all_ascii? cs

all_ascii : (s : Text) → all_ascii? s ≡ true → All IsScalar s
all_ascii [] h = tt
all_ascii (c ∷ cs) h = (inl (ground arith), all_ascii cs (ground arith))

unwrap-wrap_example : unwrap (wrap (1 ∷ 2 ∷ []) a_path (ascii "text/plain")) ≡ record {
  body = 1 ∷ 2 ∷ [];
  name = and_then (safe_name a_path) safe_name;
  mime = safe_mime (ascii "text/plain");
}
unfolding safe_name is_control fit trimmed trim_matches is_whitespace utf8_char
unwrap-wrap_example =
    unwrap-wrap (1 ∷ 2 ∷ []) a_path (ascii "text/plain") (all_ascii a_path refl) (omega arith)

-- A trailer that claims a path for a name and a type that scripts.
abbrev hostile : Bytes
hostile = ascii "body../etc/passwdtext/html" ++ 13 ∷ 9 ∷ 1 ∷ ascii "RBKP"

unwrap-IsDelivery_example : IsDelivery hostile (unwrap hostile)
unwrap-IsDelivery_example = unwrap-IsDelivery hostile (are_bytes hostile refl)
