-- ===== src/Payload/Delivery.antt =====
-- core/src/payload.rs: what `unwrap` gives for any bytes, a hostile peer's too.
use rabaska.Prelude.{
  ℕ, ◌≡◌, ◌≢◌, ◌≤◌, ◌<◌, ◌++◌, ◌-◌, ◌%◌, ◌∙◌, refl, sym, ap, ap₂, Option, none, some, [], ◌∷◌,
  length, take, drop, take-append-drop, All, append_assoc, ltb, ltb-false→le, Bool-cases, inl, inr,
  ◌+◌, true, false, arith,
}
use native.Mathlib.Nat.{mod-eq_of_lt}
use rabaska.Prelude.Bytes.{
  Bytes, IsByte, ascii, byte_at, slice, slice-IsArray, byte_at-IsByte, bytes_eq→eq, flat-slices,
  slice_one, slice_rest,
}
use rabaska.Payload.Text.{Text}
use rabaska.Payload.Utf8.{from_utf8}
use rabaska.Payload.Label.{is_listed, safe_name, safe_mime}
use rabaska.Payload.Name.{IsTidy, safe_name-IsTidy}
use rabaska.Payload.Mime.{safe_mime-IsSafe}
use rabaska.Payload.RoundTrip.{unwrap_labels}
use rabaska.Payload.Envelope.{
  Payload, magic, version, fixed, and_then, bare, split_at, has_trailer, unwrap,
}

-- A label that is there satisfies `P`.
abbrev pub IfAny : (Text → Type 0) → Option Text → Type 0
IfAny P none = Unit
IfAny P (some s) = P s

abbrev pub IsListed : Text → Type 0
IsListed m = (is_listed m ≡ true) × (m ≢ ascii "image/svg+xml")

-- A body, two labels, their lengths in a byte each, the version and the magic.
abbrev pub IsEnvelope : Bytes → Bytes → Bytes → Bytes → Type 0
IsEnvelope raw body n m =
    (length n < 256)
    × (length m < 256)
    × (raw ≡ body ++ (n ++ (m ++ length n ∷ length m ∷ version ∷ magic)))

-- An envelope is taken apart, anything else is all body, and the labels went through the sanitisers.
abbrev pub IsDelivery : Bytes → Payload → Type 0
IsDelivery raw p =
    ((body n m : Bytes)
      → IsEnvelope raw body n m
      → p ≡ record {
        body = body;
        name = and_then (from_utf8 n) safe_name;
        mime = and_then (from_utf8 m) safe_mime;
      })
    × (¬ ((body : Bytes) × (n : Bytes) × (m : Bytes) × IsEnvelope raw body n m) → p ≡ bare raw)
    × IfAny IsTidy p.name
    × IfAny IsListed p.mime

IfAny-name : (o : Option Text) → IfAny IsTidy (and_then o safe_name)
IfAny-name none = tt
IfAny-name (some s) = go (safe_name s) refl
  where
    go : (r : Option Text) → safe_name s ≡ r → IfAny IsTidy r
    go none h = tt
    go (some n) h = safe_name-IsTidy s n h

IfAny-mime : (o : Option Text) → IfAny IsListed (and_then o safe_mime)
IfAny-mime none = tt
IfAny-mime (some s) = go (safe_mime s) refl
  where
    go : (r : Option Text) → safe_mime s ≡ r → IfAny IsListed r
    go none h = tt
    go (some m) h = let (listed, not_svg, _, _, _) = safe_mime-IsSafe s m h in (listed, not_svg)

-- The envelope that `unwrap` finds.
module _ (raw : Bytes) (bytes : All IsByte raw) where
  abbrev name_len : ℕ
  name_len = byte_at raw (length raw - fixed)

  abbrev mime_len : ℕ
  mime_len = byte_at raw (length raw - fixed + 1)

  abbrev split : ℕ
  split = length raw - (fixed + name_len + mime_len)

  has_trailer-ends :
      has_trailer raw ≡ true
      → (fixed ≤ length raw)
        × (drop (length raw - 4) raw ≡ magic)
        × (byte_at raw (length raw - 5) ≡ version)
  unfolding has_trailer
  has_trailer-ends found =
      (ground arith, bytes_eq→eq (drop (length raw - 4) raw) magic (ground arith), ground arith)

  takes_apart :
      has_trailer raw ≡ true
      → ltb (length raw) (fixed + name_len + mime_len) ≡ false
      → IsEnvelope raw
          (take split raw)
          (slice split (split + name_len) raw)
          (slice (split + name_len) (split + name_len + mime_len) raw)
  takes_apart found fits =
      let (_, last, ver) = has_trailer-ends found in
      let le = ltb-false→le (length raw) (fixed + name_len + mime_len) fits in
      let n_len = byte_at-IsByte raw (length raw - fixed) bytes in
      let m_len = byte_at-IsByte raw (length raw - fixed + 1) bytes in
      let n = slice split (split + name_len) raw in
      let m = slice (split + name_len) (split + name_len + mime_len) raw in
      let at = split + name_len + mime_len in
      let n_is : length n ≡ name_len =
        let cut = slice-IsArray split (split + name_len) raw bytes (omega arith) in
        omega (arith, cut.0) in
      let m_is : length m ≡ mime_len =
        let cut = slice-IsArray (split + name_len) at raw bytes (omega arith) in
        omega (arith, cut.0) in
      let parts = flat-slices (name_len ∷ mime_len ∷ 1 ∷ 1 ∷ 1 ∷ 4 ∷ []) split raw (omega arith) in
      let here : at ≡ length raw - fixed = omega arith in
      let first : slice at (at + 1) raw ≡ length n ∷ [] =
        slice_one raw at (omega arith) ∙ ap (λ i. i ∷ []) (ap (byte_at raw) here ∙ sym n_is) in
      let second : slice (at + 1) (at + 1 + 1) raw ≡ length m ∷ [] =
        slice_one raw (at + 1) (omega arith)
        ∙ ap (λ i. i ∷ []) (ap (λ i. byte_at raw (i + 1)) here ∙ sym m_is) in
      let third : slice (at + 1 + 1) (at + 1 + 1 + 1) raw ≡ version ∷ [] =
        slice_one raw (at + 1 + 1) (omega arith)
        ∙ ap (λ i. i ∷ [])
            (ap (byte_at raw) (let e : at + 1 + 1 ≡ length raw - 5 = omega arith in e) ∙ ver) in
      let fourth : slice (at + 1 + 1 + 1) (at + 1 + 1 + 1 + 4) raw ≡ magic =
        ap (λ i. slice i (i + 4) raw) (let e : at + 1 + 1 + 1 ≡ length raw - 4 = omega arith in e)
        ∙ ap (λ k. slice (length raw - 4) (length raw - 4 + k) raw)
            (let e : 4 ≡ length raw - (length raw - 4) = omega arith in e)
        ∙ slice_rest (length raw - 4) raw
        ∙ last in
      (
        omega arith,
        omega arith,
        sym (take-append-drop split raw)
            ∙ ap (λ t. take split raw ++ t)
                (sym parts
                  ∙ ap (λ t. n ++ (m ++ t))
                      (ap₂ ◌++◌ first
                        (ap₂ ◌++◌ second (ap₂ ◌++◌ third (ap (λ t. t ++ []) fourth))))),
      )

-- An envelope with its lengths is one with its lengths modulo 256.
envelope-whole :
    (raw body n m : Bytes)
    → IsEnvelope raw body n m
    → raw ≡ (body ++ (n ++ m)) ++ (length n % 256) ∷ (length m % 256) ∷ version ∷ magic
envelope-whole raw body n m (n_lt, m_lt, e) =
    e
    ∙ ap₂ (λ i j. body ++ (n ++ (m ++ i ∷ j ∷ version ∷ magic))) (sym (mod-eq_of_lt n_lt))
        (sym (mod-eq_of_lt m_lt))
    ∙ ap (λ t. body ++ t)
        (sym (append_assoc n m ((length n % 256) ∷ (length m % 256) ∷ version ∷ magic)))
    ∙ sym (append_assoc body (n ++ m) ((length n % 256) ∷ (length m % 256) ∷ version ∷ magic))

labels : (raw : Bytes) → IfAny IsTidy (unwrap raw).name × IfAny IsListed (unwrap raw).mime
unfolding unwrap split_at
labels raw =
    let n_len = byte_at raw (length raw - fixed) in
    let m_len = byte_at raw (length raw - fixed + 1) in
    let start = length raw - (fixed + n_len + m_len) in
    elim (Bool-cases (has_trailer raw)) [
      | inr without ↦ rw without (tt, tt)
      | inl found ↦ elim (Bool-cases (ltb (length raw) (fixed + n_len + m_len))) [
        | inl long ↦ rw (found, long) (tt, tt)
        | inr fits ↦
            rw (found, fits)
              (
                IfAny-name (from_utf8 (slice start (start + n_len) raw)),
                IfAny-mime (from_utf8 (slice (start + n_len) (start + n_len + m_len) raw)),
              )
      ]
    ]

otherwise :
    (raw : Bytes)
    → All IsByte raw
    → ¬ ((body : Bytes) × (n : Bytes) × (m : Bytes) × IsEnvelope raw body n m)
    → unwrap raw ≡ bare raw
unfolding unwrap
otherwise raw bytes none_such = elim (Bool-cases (has_trailer raw)) [
  | inr without ↦ rw without refl
  | inl found ↦
      elim (Bool-cases (ltb (length raw) (fixed + name_len raw bytes + mime_len raw bytes))) [
        | inl long ↦ rw (found, long) refl
        | inr fits ↦ absurd (none_such (_, _, _, takes_apart raw bytes found fits))
      ]
]

-- Whatever the bytes: if they are a body, a name and a type, these two of at most 255 bytes each, the two lengths, the
-- version and the magic, unwrap gives the body, and the labels as the sanitisers let them through; if not, it
-- gives all the bytes as the body. A name that it gives is not empty, has at most 96 characters, no path
-- separator, no control character and no outer space, and a type is on the list and is not image/svg+xml.
pub unwrap-IsDelivery : (raw : Bytes) → All IsByte raw → IsDelivery raw (unwrap raw)
unwrap-IsDelivery raw bytes = (
  λ body n m envelope.
      ap unwrap (envelope-whole raw body n m envelope)
      ∙ unwrap_labels body n m envelope.0 envelope.1,
  otherwise raw bytes,
  (labels raw).0,
  (labels raw).1,
)
