-- ===== src/Wire/Complete.antt =====
-- core/src/wire.rs: the COMPLETE frame.
use rabaska.Prelude.{
  ◌≡◌, ◌↔◌, refl, ap, sym, some, List, [], ◌∷◌, ◌++◌, get_or, arith, All, length, subst, ℕ, ◌∙◌,
}
use rabaska.Prelude.Bytes.{
  Bytes, IsByte, IsArray, slice, slices, byte_at, flat, flat-IsArray, HasWidths, slices-flat,
  flat-slices, length-flat, slice-IsArray, slice_one, byte_at-IsByte,
}
use rabaska.Error.{Result, ok, ◌>>=◌, >>=-eq-ok}
use rabaska.Wire.Types.{
  Status, status_byte, status_from_u8, status_from_u8-status_byte, status_byte_lt, complete_len,
  complete_type,
}
use rabaska.Wire.Frame.{
  Crc, seal_crc, common_header, open_frame, frame, open_frame-frame, frame-IsArray,
  frame-open_frame,
}

pub record Complete : Type 0 where
  pub sid4 : Bytes
  pub status : Status
  pub hash8 : Bytes

-- The Rust types of the fields.
pub record IsWellFormed (c : Complete) : Type 0 where
  pub sid4 : IsArray 4 c.sid4
  pub hash8 : IsArray 8 c.hash8

-- What `encode` appends between the header and the CRC, the status byte given.
abbrev pub fields : Complete → ℕ → List Bytes
fields c s = c.sid4 ∷ (s ∷ []) ∷ c.hash8 ∷ []

abbrev widths : List ℕ
widths = 4 ∷ 1 ∷ 8 ∷ []

abbrev of_body : Bytes → Complete
of_body body = record {
  sid4 = slice 0 4 body;
  status = status_from_u8 (byte_at body 4);
  hash8 = slice 5 13 body;
}

module _ ⦃crc : Crc⦄ where
  unfoldable pub encode : Complete → Bytes
  unfolding frame
  encode c = seal_crc (common_header [] complete_type ++ flat (fields c (status_byte c.status)))

  unfoldable pub decode : Bytes → Result Complete
  decode bytes = do body ← open_frame bytes complete_type (some complete_len); ok (of_body body)

fields-HasWidths :
    (c : Complete) (s : ℕ) → IsWellFormed c → IsByte s → HasWidths widths (fields c s)
fields-HasWidths c s w hs = assumption (refl, tt)

of_fields : List Bytes → Complete
of_fields fs = record {
  sid4 = get_or fs 0 [];
  status = status_from_u8 (byte_at (get_or fs 1 []) 0);
  hash8 = get_or fs 2 [];
}

of_body-slices : (body : Bytes) → length body ≡ 13 → of_body body ≡ of_fields (slices widths 0 body)
unfolding of_fields
of_body-slices body h =
    ap (λ f. of_fields (slice 0 4 body ∷ f ∷ slice 5 13 body ∷ []))
      (sym (slice_one body 4 (omega arith)))

of_body-flat :
    (c : Complete) (s : ℕ)
    → IsWellFormed c
    → IsByte s
    → of_body (flat (fields c s)) ≡ record c { status = status_from_u8 s }
of_body-flat c s w hs =
    let widths_ok = fields-HasWidths c s w hs in
    of_body-slices (flat (fields c s)) (length-flat widths (fields c s) widths_ok)
    ∙ unfold of_fields in ap of_fields (slices-flat widths (fields c s) widths_ok)

flat-of_body :
    (body : Bytes) → length body ≡ 13 → flat (fields (of_body body) (byte_at body 4)) ≡ body
flat-of_body body h =
    ap (λ f. slice 0 4 body ++ (f ++ flat (slices (8 ∷ []) 5 body)))
      (sym (slice_one body 4 (omega arith)))
    ∙ flat-slices widths 0 body (sym h)

of_body-IsWellFormed : (body : Bytes) → IsArray 13 body → IsWellFormed (of_body body)
of_body-IsWellFormed body (len, bs) = record {
  sid4 = slice-IsArray 0 4 body bs (omega arith);
  hash8 = slice-IsArray 5 13 body bs (omega arith);
}

module _ ⦃crc : Crc⦄ where
  -- The frame of `c`, with any status byte.
  abbrev pub with_status : Complete → ℕ → Bytes
  with_status c s = frame complete_type (flat (fields c s))

  decode-with_status :
      (c : Complete) (s : ℕ)
      → IsWellFormed c
      → IsByte s
      → decode (with_status c s) ≡ ok (record c { status = status_from_u8 s })
  unfolding decode
  decode-with_status c s w hs =
      rw
        (open_frame-frame complete_type (some complete_len) (flat (fields c s))
          (omega (arith, length-flat widths (fields c s) (fields-HasWidths c s w hs))))
        (ap ok (of_body-flat c s w hs))

  pub encode-IsArray : (c : Complete) → IsWellFormed c → IsArray complete_len (encode c)
  unfolding encode
  encode-IsArray c w =
      frame-IsArray 13 complete_type (flat (fields c (status_byte c.status))) (omega arith) (
        flat-IsArray widths (fields c (status_byte c.status))
          (fields-HasWidths c (status_byte c.status) w (status_byte_lt c.status)))

  -- What a sender encodes, a receiver decodes.
  pub decode-encode : (c : Complete) → IsWellFormed c → decode (encode c) ≡ ok c
  unfolding encode
  decode-encode c w =
      decode-with_status c (status_byte c.status) w (status_byte_lt c.status)
      ∙ ap (λ t. ok (record c { status = t })) (status_from_u8-status_byte c.status)

  frame-decode :
      (bytes : Bytes) (c : Complete)
      → All IsByte bytes
      → decode bytes ≡ ok c
      → IsWellFormed c
        × ((s : ℕ) × IsByte s × (status_from_u8 s ≡ c.status) × (bytes ≡ with_status c s))
  unfolding decode
  frame-decode bytes c hb h =
      let (body, opened, e) = >>=-eq-ok (open_frame bytes complete_type (some complete_len)) _ h in
      let (sealed, fits, bs) =
        frame-open_frame bytes complete_type (some complete_len) body hb (λ n. omega arith)
          opened in
      let len : length body ≡ 13 = omega arith in
      subst
        (λ q.
          IsWellFormed q
          × ((s : ℕ) × IsByte s × (status_from_u8 s ≡ q.status) × (bytes ≡ with_status q s)))
        (cc e)
        (
          of_body-IsWellFormed body (len, bs),
          (
            byte_at body 4,
            byte_at-IsByte body 4 bs,
            refl,
            sealed ∙ ap (frame complete_type) (sym (flat-of_body body len)),
          ),
        )

  -- On bytes, `decode` returns `c` exactly when `c` has the field widths of the Rust type and the
  -- bytes are the frame of `c` with a status byte that reads as `c`'s status.
  decode-Complete_iff :
      (bytes : Bytes) (c : Complete)
      → All IsByte bytes
      → (decode bytes ≡ ok c) ↔ (
          IsWellFormed c
          × ((s : ℕ) × IsByte s × (status_from_u8 s ≡ c.status) × (bytes ≡ with_status c s)))
  decode-Complete_iff bytes c hb = (
    frame-decode bytes c hb,
    λ w.
        rw w.1.3
          (decode-with_status c w.1.0 w.0 w.1.1 ∙ ap (λ t. ok (record c { status = t })) w.1.2),
  )
