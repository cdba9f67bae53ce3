-- ===== src/Payload/RoundTrip.antt =====
-- core/src/payload.rs: `unwrap` undoes `wrap`, and takes nothing else apart.
use rabaska.Prelude.{
  ℕ, zero, suc, ◌≡◌, ◌<◌, ◌+◌, ◌-◌, ◌%◌, inl, inr, refl, sym, ap, ap₂, ◌∙◌, Option, none, some,
  true, false, [], ◌∷◌, ◌++◌, length, drop, take, All, ltb, arith, append_assoc, length-append,
  take-append, drop-append, Option-cases,
}
use native.Mathlib.Nat.{mod-eq_of_lt}
use rabaska.Prelude.Bytes.{Bytes, slice, byte_at, bytes_eq, bytes_eq_refl}
use rabaska.Payload.Text.{Text}
use rabaska.Payload.Utf8.{IsScalar, utf8, from_utf8, from_utf8-utf8}
use rabaska.Payload.Text.{trim_matches}
use rabaska.Payload.Label.{safe_name, safe_mime, fit, allow, trimmed}
use rabaska.Payload.Name.{safe_name-All}
use rabaska.Payload.Mime.{safe_mime-IsSafe}
use rabaska.Payload.Envelope.{
  magic, version, fixed, or_empty, and_then, trailer_of, wrap, split_at, has_trailer, unwrap,
}

byte_at-append : (xs ys : Bytes) (i k : ℕ) → length xs + k ≡ i → byte_at (xs ++ ys) i ≡ byte_at ys k
byte_at-append [] ys i k e = ap (byte_at ys) (let e' : i ≡ k = omega arith in e')
byte_at-append (x ∷ xs) ys zero k e = absurd (omega arith)
byte_at-append (x ∷ xs) ys (suc i) k e = byte_at-append xs ys i k (omega arith)

slice-append_middle :
    (xs ys zs : Bytes) (a b : ℕ)
    → length xs ≡ a
    → a + length ys ≡ b
    → slice a b (xs ++ (ys ++ zs)) ≡ ys
slice-append_middle xs ys zs a b ea eb =
    ap (take (b - a)) (drop-append xs (ys ++ zs) a ea) ∙ take-append ys zs (b - a) (omega arith)

-- What stands behind the two labels.
abbrev lengths : ℕ → ℕ → Bytes
lengths n m = (n % 256) ∷ (m % 256) ∷ version ∷ magic

-- A trailer behind any front is found.
module _ (front : Bytes) (a b : ℕ) where
  abbrev ended : Bytes
  ended = front ++ lengths a b

  length-ended : length ended ≡ length front + 7
  length-ended = omega (arith, length-append front (lengths a b))

  at_end : (i k : ℕ) → length front + k ≡ i → byte_at ended i ≡ byte_at (lengths a b) k
  at_end i k e = byte_at-append front (lengths a b) i k e

  has_trailer-ended : has_trailer ended ≡ true
  unfolding has_trailer
  has_trailer-ended =
      let len = length-ended in
      let split : ended ≡ (front ++ (a % 256) ∷ (b % 256) ∷ version ∷ []) ++ magic =
        sym (append_assoc front ((a % 256) ∷ (b % 256) ∷ version ∷ []) magic) in
      let last : drop (length ended - 4) ended ≡ magic =
        ap (drop (length ended - 4)) split
        ∙ drop-append (front ++ (a % 256) ∷ (b % 256) ∷ version ∷ []) magic (length ended - 4)
            (omega (arith, length-append front ((a % 256) ∷ (b % 256) ∷ version ∷ []))) in
      let same : bytes_eq (drop (length ended - 4) ended) magic ≡ true =
        ap (λ x. bytes_eq x magic) last ∙ bytes_eq_refl magic in
      let ver : byte_at ended (length ended - 5) ≡ version =
        at_end (length ended - 5) 2 (omega arith) in
      ground arith

module _ (body n m : Bytes) (n_lt : length n < 256) (m_lt : length m < 256) where
  abbrev whole : Bytes
  whole = (body ++ (n ++ m)) ++ lengths (length n) (length m)

  length-whole : length whole ≡ length body + length n + length m + 7
  length-whole = omega (
    arith,
    length-ended (body ++ (n ++ m)) (length n) (length m),
    length-append body (n ++ m),
    length-append n m,
  )

  -- What `unwrap` makes of two short labels behind a body.
  pub unwrap_labels : unwrap whole ≡ record {
    body = body;
    name = and_then (from_utf8 n) safe_name;
    mime = and_then (from_utf8 m) safe_mime;
  }
  unfolding unwrap split_at
  unwrap_labels =
      let len = length-whole in
      let front = length-append body (n ++ m) in
      let labels = length-append n m in
      let nl : byte_at whole (length whole - fixed) ≡ length n =
        at_end (body ++ (n ++ m)) (length n) (length m) (length whole - fixed) 0 (omega arith)
        ∙ mod-eq_of_lt n_lt in
      let ml : byte_at whole (length whole - fixed + 1) ≡ length m =
        at_end (body ++ (n ++ m)) (length n) (length m) (length whole - fixed + 1) 1 (omega arith)
        ∙ mod-eq_of_lt m_lt in
      let fits : ltb (length whole) (fixed + length n + length m) ≡ false = ground arith in
      let start : length whole - (fixed + length n + length m) ≡ length body = omega arith in
      let rest = lengths (length n) (length m) in
      let as_body : whole ≡ body ++ ((n ++ m) ++ rest) = append_assoc body (n ++ m) rest in
      let as_name : whole ≡ body ++ (n ++ (m ++ rest)) =
        as_body ∙ ap (λ t. body ++ t) (append_assoc n m rest) in
      let as_mime : whole ≡ (body ++ n) ++ (m ++ rest) =
        as_name ∙ sym (append_assoc body n (m ++ rest)) in
      let cut : take (length body) whole ≡ body =
        ap (take (length body)) as_body ∙ take-append body ((n ++ m) ++ rest) (length body) refl in
      let name : slice (length body) (length body + length n) whole ≡ n =
        ap (slice (length body) (length body + length n)) as_name
        ∙ slice-append_middle body n (m ++ rest) (length body) (length body + length n) refl refl in
      let mime : slice (length body + length n) (length body + length n + length m) whole ≡ m =
        ap (slice (length body + length n) (length body + length n + length m)) as_mime
        ∙ slice-append_middle (body ++ n) m rest (length body + length n)
            (length body + length n + length m) (length-append body n) refl in
      rw (
        has_trailer-ended (body ++ (n ++ m)) (length n) (length m),
        nl,
        ml,
        fits,
        start,
        cut,
        name,
        mime,
      )

read_label :
    (o : Option Text) (f : Text → Option Text)
    → f [] ≡ none
    → All IsScalar (or_empty o)
    → and_then (from_utf8 (utf8 (or_empty o))) f ≡ and_then o f
read_label none f e s = ap (λ t. and_then t f) (from_utf8-utf8 [] s) ∙ e
read_label (some t) f e s = ap (λ t. and_then t f) (from_utf8-utf8 t s)

ascii-IsScalar : (s : Text) → All (λ c. c < 128) s → All IsScalar s
ascii-IsScalar [] h = tt
ascii-IsScalar (c ∷ cs) h = (inl (omega arith), ascii-IsScalar cs h.1)

or_empty-name : (name : Text) → All IsScalar name → All IsScalar (or_empty (safe_name name))
or_empty-name name h = elim (Option-cases (safe_name name)) [
  | inl without ↦ rw without tt
  | inr (n, returned) ↦ rw returned (safe_name-All IsScalar name n (inl (omega arith)) h returned)
]

-- The type that is carried: ASCII, short, and safe as it stands.
carried_mime :
    (mime : Text)
    → All IsScalar (or_empty (safe_mime mime))
      × (length (utf8 (or_empty (safe_mime mime))) < 256)
      × (and_then (safe_mime mime) safe_mime ≡ safe_mime mime)
carried_mime mime = elim (Option-cases (safe_mime mime)) [
  | inl without ↦ rw without (tt, omega arith, refl)
  | inr (m, returned) ↦
      let (_, _, ascii_only, short, again) = safe_mime-IsSafe mime m returned in
      rw returned (ascii-IsScalar m ascii_only, omega arith, again)
]

whole-wrap :
    (body : Bytes) (n m : Bytes)
    → body ++ trailer_of n m ≡ (body ++ (n ++ m)) ++ lengths (length n) (length m)
unfolding trailer_of
whole-wrap body n m = sym (append_assoc body (n ++ m) (lengths (length n) (length m)))

safe_name-nil : safe_name [] ≡ none
unfolding safe_name fit trimmed trim_matches
safe_name-nil = refl

safe_mime-nil : safe_mime [] ≡ none
unfolding safe_mime allow trim_matches
safe_mime-nil = refl

-- If the name that `wrap` carries has fewer than 256 bytes, `unwrap` gives back the body, the safe type, and
-- the safe name made safe once more.
pub unwrap-wrap :
    (body : Bytes) (name mime : Text)
    → All IsScalar name
    → length (utf8 (or_empty (safe_name name))) < 256
    → unwrap (wrap body name mime)
      ≡ record { body = body; name = and_then (safe_name name) safe_name; mime = safe_mime mime }
unfolding wrap
unwrap-wrap body name mime scalar short =
    let n = utf8 (or_empty (safe_name name)) in
    let m = utf8 (or_empty (safe_mime mime)) in
    let (mime_scalar, mime_short, again) = carried_mime mime in
    let read_name =
      read_label (safe_name name) safe_name safe_name-nil (or_empty-name name scalar) in
    let read_mime = read_label (safe_mime mime) safe_mime safe_mime-nil mime_scalar ∙ again in
    ap unwrap (whole-wrap body n m)
    ∙ unwrap_labels body n m short mime_short
    ∙ ap₂ (λ x y. record { body = body; name = x; mime = y }) read_name read_mime
