-- ===== src/Handshake/Prefix/RoundTrip.antt =====
-- core/src/wasm.rs: the printed prefix of a session reads back, and no ASCII prefix makes the reader panic.
use rabaska.Prelude.{
  ℕ, zero, suc, ◌≡◌, ◌<◌, ◌+◌, ◌-◌, ◌*◌, ◌/◌, ◌%◌, inl, inr, refl, sym, ap, none, some, true, false,
  List, [], ◌∷◌, length, All, ltb, ◌==◌, arith, Bool-cases, Option-cases, subst, ltb-false→le,
}
use rabaska.Prelude.Bytes.{Bytes, IsArray, slice, byte_at, slice-IsArray}
use rabaska.Payload.Utf8.{continues}
use rabaska.Wire.Beacon.{Beacon}
use rabaska.Pipeline.Services.{Fountain}
use rabaska.Pipeline.Receiver as Rx
use rabaska.Handshake.{JsResult, returns, throws, panics, bad_session_id}
use rabaska.Handshake.Receive.{Receive}
use rabaska.Handshake.Prefix.{
  hex_digit, hex4_of, hex4, to_digit, radix_16, is_boundary, sid_loop, decode_sid4, restore,
}

hex_digit-cases :
    (d : ℕ)
    → d < 16
    → (to_digit (hex_digit d) ≡ some d)
      × ((hex_digit d == b'+') ≡ false)
      × (continues (hex_digit d) ≡ false)
unfolding to_digit
hex_digit-cases d lt = elim (Bool-cases (ltb d 10)) [
  | inl digit ↦
      let e : hex_digit d ≡ b'0' + d = rw digit in
      let same : b'0' + d - b'0' ≡ d = omega arith in
      rw e (ground arith, ground arith, ground arith)
  | inr letter ↦
      let e : hex_digit d ≡ b'a' + (d - 10) = rw letter in
      let same : b'a' + (d - 10) - b'a' + 10 ≡ d = omega (arith, ltb-false→le d 10 letter) in
      rw e (ground arith, ground arith, ground arith)
]

pub radix_16-hex_digit :
    (b : ℕ) → b < 256 → radix_16 (hex_digit (b / 16)) (hex_digit (b % 16)) ≡ some b
unfolding radix_16
radix_16-hex_digit b lt =
    let (high, no_plus, _) = hex_digit-cases (b / 16) (omega arith) in
    let (low, _, _) = hex_digit-cases (b % 16) (omega arith) in
    let sum : 16 * (b / 16) + b % 16 ≡ b = omega arith in rw (radix_16, no_plus, high, low, sum)

boundary : (b : ℕ) → b < 256 → continues (hex_digit (b / 16)) ≡ false
boundary b lt = (hex_digit-cases (b / 16) (omega arith)).2

sid_step :
    (n i : ℕ) (hex bs : Bytes) (v : ℕ)
    → is_boundary hex (i * 2) ≡ true
    → is_boundary hex (i * 2 + 2) ≡ true
    → radix_16 (byte_at hex (i * 2)) (byte_at hex (i * 2 + 1)) ≡ some v
    → sid_loop n (i + 1) hex ≡ returns bs
    → sid_loop (suc n) i hex ≡ returns (v ∷ bs)
unfolding sid_loop
sid_step n i hex bs v here next digits rest = rw (sid_loop, here, next, digits, rest)

no_continuation :
    (hex : Bytes) (i : ℕ) → continues (byte_at hex i) ≡ false → is_boundary hex i ≡ true
unfolding is_boundary
no_continuation hex i h = ground arith

boundary_end : (hex : Bytes) → length hex ≡ 8 → is_boundary hex 8 ≡ true
unfolding is_boundary
boundary_end hex len = ground arith

loop_end : (hex : Bytes) → sid_loop 0 4 hex ≡ returns []
unfolding sid_loop
loop_end hex = refl

decode_four :
    (a b c d : ℕ)
    → a < 256
    → b < 256
    → c < 256
    → d < 256
    → decode_sid4 (hex4_of (a ∷ b ∷ c ∷ d ∷ [])) ≡ returns (a ∷ b ∷ c ∷ d ∷ [])
unfolding decode_sid4 hex4_of
decode_four a b c d ha hb hc hd =
    let hex = hex4_of (a ∷ b ∷ c ∷ d ∷ []) in
    let at_2 = no_continuation hex 2 (boundary b hb) in
    let at_4 = no_continuation hex 4 (boundary c hc) in
    let at_6 = no_continuation hex 6 (boundary d hd) in
    sid_step 3 0 hex (b ∷ c ∷ d ∷ []) a (no_continuation hex 0 (boundary a ha)) at_2
      (radix_16-hex_digit a ha)
      (sid_step 2 1 hex (c ∷ d ∷ []) b at_2 at_4 (radix_16-hex_digit b hb) (
        sid_step 1 2 hex (d ∷ []) c at_4 at_6 (radix_16-hex_digit c hc) (
          sid_step 0 3 hex [] d at_6 (boundary_end hex refl) (radix_16-hex_digit d hd)
            (loop_end hex))))

decode_prefix : (s : Bytes) → IsArray 4 s → decode_sid4 (hex4_of s) ≡ returns s
decode_prefix (a ∷ b ∷ c ∷ d ∷ []) (len, (ha, (hb, (hc, (hd, _))))) =
    decode_four a b c d ha hb hc hd
decode_prefix _ (len, h) = absurd (omega arith)

-- The prefix that `hex4` prints, `decode_sid4` reads back: it is the first four bytes of the session id.
decode_sid4-hex4 : (sid : Bytes) → IsArray 8 sid → decode_sid4 (hex4 sid) ≡ returns (slice 0 4 sid)
unfolding hex4
decode_sid4-hex4 sid (len, h) =
    decode_prefix (slice 0 4 sid) (slice-IsArray 0 4 sid h (omega arith))

-- So many bytes, or the error.
abbrev pub IsPrefixOr : ℕ → JsResult Bytes → Type 0
IsPrefixOr n (returns sid) = IsArray n sid
IsPrefixOr n (throws e) = e ≡ bad_session_id
IsPrefixOr n panics = ⊥

byte_at-ascii : (hex : Bytes) (i : ℕ) → All (λ c. c < 0x80) hex → byte_at hex i < 0x80
byte_at-ascii [] i h = omega arith
byte_at-ascii (c ∷ hex) zero h = h.0
byte_at-ascii (c ∷ hex) (suc i) h = byte_at-ascii hex i h.1

ascii_boundary : (hex : Bytes) (i : ℕ) → All (λ c. c < 0x80) hex → is_boundary hex i ≡ true
ascii_boundary hex i h =
    let lt = byte_at-ascii hex i h in
    let no : continues (byte_at hex i) ≡ false = ground arith in no_continuation hex i no

to_digit_lt : (c d : ℕ) → to_digit c ≡ some d → d < 16
unfolding to_digit
to_digit_lt c d h = ground arith

radix_16_lt : (a b v : ℕ) → radix_16 a b ≡ some v → v < 256
unfolding radix_16
radix_16_lt a b v h = elim (Option-cases (to_digit b)) [
  | inl no_low ↦ absurd (ground arith)
  | inr (lo, low) ↦
      let lo_lt = to_digit_lt b lo low in
      elim (Bool-cases (a == b'+')) [
        | inl plus ↦ let same : lo ≡ v = ground arith in omega arith
        | inr digit ↦ elim (Option-cases (to_digit a)) [
          | inl no_high ↦ absurd (ground arith)
          | inr (hi, high) ↦
              let hi_lt = to_digit_lt a hi high in
              let same : 16 * hi + lo ≡ v = ground arith in omega arith
        ]
      ]
]

sid_bad :
    (n i : ℕ) (hex : Bytes)
    → is_boundary hex (i * 2) ≡ true
    → is_boundary hex (i * 2 + 2) ≡ true
    → radix_16 (byte_at hex (i * 2)) (byte_at hex (i * 2 + 1)) ≡ none
    → sid_loop (suc n) i hex ≡ throws bad_session_id
unfolding sid_loop
sid_bad n i hex here next digits = rw (sid_loop, here, next, digits)

sid_rest :
    (n i : ℕ) (hex : Bytes) (v : ℕ)
    → is_boundary hex (i * 2) ≡ true
    → is_boundary hex (i * 2 + 2) ≡ true
    → radix_16 (byte_at hex (i * 2)) (byte_at hex (i * 2 + 1)) ≡ some v
    → v < 256
    → IsPrefixOr n (sid_loop n (i + 1) hex)
    → IsPrefixOr (suc n) (sid_loop (suc n) i hex)
unfolding sid_loop
sid_rest n i hex v here next digits lt rest =
    rw (sid_loop, here, next, digits) (after (sid_loop n (i + 1) hex) rest)
  where
    after :
        (r : JsResult Bytes)
        → IsPrefixOr n r
        → IsPrefixOr (suc n) (elim r as (λ x. JsResult Bytes) [
          | returns bs ↦ returns (v ∷ bs)
          | throws e ↦ throws e
          | panics ↦ panics
        ])
    after (returns bs) (len, all) = (ap suc len, (lt, all))
    after (throws e) h = h
    after panics h = h

sid_loop-IsPrefixOr :
    (n i : ℕ) (hex : Bytes) → All (λ c. c < 0x80) hex → IsPrefixOr n (sid_loop n i hex)
unfolding sid_loop
sid_loop-IsPrefixOr zero i hex h = (refl, tt)
sid_loop-IsPrefixOr (suc n) i hex h =
    let here = ascii_boundary hex (i * 2) h in
    let next = ascii_boundary hex (i * 2 + 2) h in
    elim (Option-cases (radix_16 (byte_at hex (i * 2)) (byte_at hex (i * 2 + 1)))) [
      | inl bad ↦ subst (IsPrefixOr (suc n)) (sym (sid_bad n i hex here next bad)) refl
      | inr (v, good) ↦
          sid_rest n i hex v here next good
            (radix_16_lt (byte_at hex (i * 2)) (byte_at hex (i * 2 + 1)) v good)
            (sid_loop-IsPrefixOr n (i + 1) hex h)
    ]

-- On a string of ASCII characters, `decode_sid4` does not panic: it returns four bytes, or the error that the
-- session id is bad.
pub decode_sid4-IsPrefixOr :
    (hex : Bytes) → All (λ c. c < 0x80) hex → IsPrefixOr 4 (decode_sid4 hex)
unfolding decode_sid4
decode_sid4-IsPrefixOr hex h = elim (Bool-cases (length hex == 8)) [
  | inl fits ↦
      let step : decode_sid4 hex ≡ sid_loop 4 0 hex = rw (decode_sid4, fits) in
      subst (IsPrefixOr 4) (sym step) (sid_loop-IsPrefixOr 4 0 hex h)
  | inr other ↦
      let step : decode_sid4 hex ≡ throws bad_session_id = rw (decode_sid4, other) in
      subst (IsPrefixOr 4) (sym step) refl
]

-- A checkpoint restored under the prefix that `session_id` reported for a beacon reaches the receiver under
-- that beacon's session.
pub restore-hex4 :
    ⦃fountain : Fountain⦄ (r : Receive) (b : Beacon) (packets : List Bytes)
    → IsArray 8 b.session_id
    → restore r (some (hex4 b.session_id)) packets
      ≡ (record r { rx = Rx.restore r.rx (slice 0 4 b.session_id) packets }, returns tt)
unfolding restore
restore-hex4 r b packets h = rw (restore, decode_sid4-hex4 b.session_id h)
